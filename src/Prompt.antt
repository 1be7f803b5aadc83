-- ===== src/Prompt.antt =====
-- src/signal_hermes_router/context.py and mime.py: the blocks of a prompt.
--
-- The file system, the table of file types and the random nonce of a block are parameters (Files).
pub mod Escape
pub mod Blocks
pub mod Examples
use signal_hermes_router.Prelude.{
  ℕ, zero, suc, ◌-◌, String, Bool, true, false, ◌&&◌, ◌||◌, List, [], ◌∷◌, ◌++◌, map, Option, none,
  some, length, if◌then◌else◌, ◌==◌, any,
}
use signal_hermes_router.Text.{Text, codes, starts_with, strip, str}
use signal_hermes_router.Values.{
  Value, boolean, string, mapping, Fields, end, field, Result, ok, ◌>>=◌, Python, is_key, get,
}

-- text.replace(old, new), where `skip` characters of an occurrence are still to be left out.
unfoldable pub replace_from : Text → Text → ℕ → Text → Text
unfolding starts_with
replace_from old new skip [] = []
replace_from old new (suc skip) (c ∷ cs) = replace_from old new skip cs
replace_from old new zero (c ∷ cs) =
    let inside = replace_from old new (length old - 1) cs in
    let after = replace_from old new zero cs in
    if starts_with (c ∷ cs) old then new ++ inside else c ∷ after

unfoldable pub replace : Text → Text → Text → Text
unfolding replace_from
replace old new text = replace_from old new zero text

-- The openings of the router's own blocks, each with what stands for it in other text.
abbrev pub context_open : Text
context_open = codes "[route_context:"

abbrev pub context_close : Text
context_close = codes "[/route_context:"

abbrev pub event_open : Text
event_open = codes "[scheduled_event:"

abbrev pub event_close : Text
event_close = codes "[/scheduled_event:"

abbrev pub context_open_escaped : Text
context_open_escaped = codes "[route_context_escaped:"

abbrev pub context_close_escaped : Text
context_close_escaped = codes "[/route_context_escaped:"

abbrev pub event_open_escaped : Text
event_open_escaped = codes "[scheduled_event_escaped:"

abbrev pub event_close_escaped : Text
event_close_escaped = codes "[/scheduled_event_escaped:"

unfoldable pub escape_prompt_text : Text → Text
escape_prompt_text text = replace event_close event_close_escaped (
    replace event_open event_open_escaped (
      replace context_close context_close_escaped (replace context_open context_open_escaped text)))

abbrev pub safe_key : Value → Bool
safe_key k = is_key "purpose" k || is_key "route_alias" k

-- `context_for_prompt`: the keys of PROMPT_SAFE_CONTEXT_KEYS
unfoldable pub context_for_prompt : Fields → Fields
context_for_prompt end = end
context_for_prompt (field k v rest) =
    let kept = context_for_prompt rest in if safe_key k then field k v kept else kept

-- text.split(";", 1)[0]
unfoldable pub before_semicolon : Text → Text
before_semicolon [] = []
before_semicolon (c ∷ cs) = let rest = before_semicolon cs in if c == 59 then [] else c ∷ rest

abbrev pub text_or : Text → Text → Text
text_or [] default = default
text_or (c ∷ cs) default = c ∷ cs

abbrev pub default_content_type : Text
default_content_type = codes "application/octet-stream"

-- `normalize_content_type` of mime.py; `lower` is str.lower.
unfoldable pub normalize_content_type : (Text → Text) → Text → Text
normalize_content_type lower [] = default_content_type
normalize_content_type lower (c ∷ cs) =
    text_or (lower (strip (before_semicolon (c ∷ cs)))) default_content_type

unfoldable pub is_image_content_type : (Text → Text) → Text → Bool
is_image_content_type lower t = starts_with (normalize_content_type lower t) (codes "image/")

pub record MediaManifest : Type 0 where
  pub display_filename : Text
  pub canonical_path : Text
  pub content_type : Text
  pub size : ℕ
  pub sha256 : Text
  pub group_ref : Text
  pub sender_ref : Text
  pub signal_timestamp : ℕ

-- "text" and "resource_link"
pub data Block : Type 0 where
  text : Text → Block
  resource_link : Text → Text → Text → Block  -- the name, the type and the URI

pub record Files : Type 0 where
  pub exists : Text → Bool
  pub resolve : Text → Text
  pub name : Text → Text
  pub as_uri : Text → Text
  pub guess_type : Text → Option Text  -- mimetypes.guess_type(name)[0]
  pub lower : Text → Text
  pub nonce : ℕ → Text  -- uuid.uuid4().hex, the n-th one

-- The lines of `to_prompt_dict`, without and with `tool_path`.
abbrev line : String → Text → Text
line key value = 10 ∷ codes "  " ++ codes key ++ codes ": " ++ value

abbrev tool_path_line : Bool → MediaManifest → Text
tool_path_line false m = []
tool_path_line true m = line "tool_path" m.canonical_path

-- `MediaManifest.to_text`
unfoldable pub to_text : MediaManifest → Bool → Text
to_text m include_tool_path =
    codes "attachment_manifest:"
    ++ line "display_filename" m.display_filename
    ++ line "content_type" m.content_type
    ++ line "size" (str m.size)
    ++ line "sha256" m.sha256
    ++ line "group_ref" m.group_ref
    ++ line "sender_ref" m.sender_ref
    ++ line "signal_timestamp" (str m.signal_timestamp)
    ++ tool_path_line include_tool_path m

-- `_render_tagged_block`
unfoldable pub tagged_block : String → Text → Text → Block
tagged_block tag nonce body = text (
    codes "["
    ++ codes tag
    ++ codes ":"
    ++ nonce
    ++ codes "]"
    ++ body
    ++ codes "[/"
    ++ codes tag
    ++ codes ":"
    ++ nonce
    ++ codes "]")

abbrev pub user_blocks : Text → List Block
user_blocks [] = []
user_blocks (c ∷ cs) = text (escape_prompt_text (c ∷ cs)) ∷ []

abbrev pub payload_blocks : Option Text → List Block
payload_blocks none = []
payload_blocks (some json) = text (codes "synthetic_payload:\n" ++ escape_prompt_text json) ∷ []

-- value is True
abbrev is_true : Value → Bool
is_true (boolean b) = b
is_true _ = false

module _ (py : Python) (files : Files) where
  abbrev guessed : Option Text → Text
  guessed none = default_content_type
  guessed (some []) = default_content_type
  guessed (some (c ∷ cs)) = c ∷ cs

  -- `content_type_for_path` of mime.py
  unfoldable pub content_type_for_path : Text → Text → Text
  content_type_for_path path [] = guessed (files.guess_type (files.name path))
  content_type_for_path path (c ∷ cs) = normalize_content_type files.lower (c ∷ cs)

  unfoldable pub image_block : Text → Text → Block
  image_block path content_type =
      let resolved = files.resolve path in
      resource_link (files.name resolved) (content_type_for_path resolved content_type)
        (files.as_uri resolved)

  -- The blocks of one manifest, in the loop of `build_prompt_blocks`.
  unfoldable pub manifest_blocks : Bool → MediaManifest → List Block
  manifest_blocks tool_path m =
      let there = files.exists m.canonical_path in
      if is_image_content_type files.lower m.content_type && there
      then image_block m.canonical_path m.content_type
        ∷ (if tool_path then text (to_text m true) ∷ [] else [])
      else text (to_text m (tool_path && there)) ∷ []

  abbrev pub all_manifest_blocks : Bool → List MediaManifest → List Block
  all_manifest_blocks tool_path [] = []
  all_manifest_blocks tool_path (m ∷ ms) =
      manifest_blocks tool_path m ++ all_manifest_blocks tool_path ms

  -- `render_route_context` and `render_scheduled_event`, with their nonces.
  unfoldable pub render_route_context : Fields → Result Block
  render_route_context context = do
    body ← py.dumps (mapping context)
    ok (tagged_block "route_context" (files.nonce 0) (codes body))

  unfoldable pub render_scheduled_event : Fields → Result Block
  render_scheduled_event metadata = do
    body ← py.dumps (mapping metadata)
    ok (tagged_block "scheduled_event" (files.nonce 1) (codes body))

  unfoldable pub build_prompt_blocks : Fields → Text → List MediaManifest → Result (List Block)
  build_prompt_blocks route_context user_text manifests = do
    context ← render_route_context (context_for_prompt route_context)
    ok (
        context ∷ user_blocks user_text
        ++ all_manifest_blocks (is_true (get "attachment_tool_paths" route_context)) manifests)

  unfoldable pub build_synthetic_prompt_blocks :
      Fields → Fields → Text → Option Text → Result (List Block)
  build_synthetic_prompt_blocks route_context metadata prompt payload = do
    context ← render_route_context (context_for_prompt route_context)
    event ← render_scheduled_event metadata
    ok (context ∷ event ∷ payload_blocks payload ++ user_blocks prompt)
