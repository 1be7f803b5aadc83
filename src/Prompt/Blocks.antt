-- ===== src/Prompt/Blocks.antt =====
-- context.py: what the blocks of a prompt show.
use signal_hermes_router.Prelude.{
  ◌≡◌, refl, inl, inr, String, true, List, [], ◌∷◌, Option, none, some, All, All-append, Bool-cases,
}
use signal_hermes_router.Text.{Text, codes, starts_with}
use signal_hermes_router.Values.{mapping, Fields, end, field, ok, Python}
use signal_hermes_router.Values.Holds.{Holds, ok-Holds, >>=-Holds, any-Holds}
use signal_hermes_router.Prompt.{
  Block, text, Files, safe_key, context_for_prompt, tagged_block, user_blocks, payload_blocks,
  render_route_context, render_scheduled_event, build_synthetic_prompt_blocks,
}
use signal_hermes_router.Prompt.Escape.{Escaped, includes, escape_prompt_text-Escaped}

abbrev pub OnlySafe : Fields → Type 0
OnlySafe end = Unit
OnlySafe (field k v rest) = (safe_key k ≡ true) × OnlySafe rest

-- A text block holds none of the openings of the router's own blocks.
abbrev pub Shielded : Block → Type 0
Shielded (text t) = Escaped t
Shielded _ = Unit

-- The block of a context shows only the keys that are safe.
abbrev pub ShowsSafe : Python → Files → Block → Type 0
ShowsSafe py files b =
    (shown : Fields) × (body : String) × OnlySafe shown
    × (py.dumps (mapping shown) ≡ ok body)
    × (b ≡ tagged_block "route_context" (files.nonce 0) (codes body))

context_for_prompt-OnlySafe : (d : Fields) → OnlySafe (context_for_prompt d)
unfolding context_for_prompt
context_for_prompt-OnlySafe end = tt
context_for_prompt-OnlySafe (field k v rest) = elim (Bool-cases (safe_key k)) [
  | inl e ↦ rw e (e, context_for_prompt-OnlySafe rest)
  | inr e ↦ rw e (context_for_prompt-OnlySafe rest)
]

user_blocks-Shielded : (t : Text) → All Shielded (user_blocks t)
user_blocks-Shielded [] = tt
user_blocks-Shielded (c ∷ cs) = (escape_prompt_text-Escaped (c ∷ cs), tt)

payload_blocks-Shielded : (p : Option Text) → All Shielded (payload_blocks p)
unfolding includes starts_with
payload_blocks-Shielded none = tt
payload_blocks-Shielded (some json) = (escape_prompt_text-Escaped json, tt)

module _ (py : Python) (files : Files) where
  render_route_context-ShowsSafe :
      (d : Fields)
      → Holds (ShowsSafe py files) (render_route_context py files (context_for_prompt d))
  unfolding render_route_context
  render_route_context-ShowsSafe d =
      any-Holds (py.dumps (mapping (context_for_prompt d)))
        (λ body e. ok-Holds (context_for_prompt d, body, context_for_prompt-OnlySafe d, e, refl))

  -- The router's own block of the event holds the metadata alone.
  abbrev pub ShowsEvent : Fields → Block → Type 0
  ShowsEvent metadata b =
      (body : String) × (py.dumps (mapping metadata) ≡ ok body)
      × (b ≡ tagged_block "scheduled_event" (files.nonce 1) (codes body))

  render_scheduled_event-ShowsEvent :
      (metadata : Fields) → Holds (ShowsEvent metadata) (render_scheduled_event py files metadata)
  unfolding render_scheduled_event
  render_scheduled_event-ShowsEvent metadata =
      any-Holds (py.dumps (mapping metadata)) (λ body e. ok-Holds (body, e, refl))

  -- The blocks of a synthetic turn: the first shows only the safe keys of the route's context, the
  -- second the metadata of the event, and every one after these is shielded.
  abbrev pub SyntheticBlocks : Fields → List Block → Type 0
  SyntheticBlocks metadata [] = ⊥
  SyntheticBlocks metadata (context ∷ []) = ⊥
  SyntheticBlocks metadata (context ∷ event ∷ rest) =
      ShowsSafe py files context × ShowsEvent metadata event × All Shielded rest

  synthetic-Holds :
      (route_context metadata : Fields) (prompt : Text) (payload : Option Text)
      → Holds
          (SyntheticBlocks metadata)
          (build_synthetic_prompt_blocks py files route_context metadata prompt payload)
  unfolding build_synthetic_prompt_blocks
  synthetic-Holds route_context metadata prompt payload =
      >>=-Holds _ (render_route_context-ShowsSafe route_context) (λ context safe.
        >>=-Holds _ (render_scheduled_event-ShowsEvent metadata) (λ event own. ok-Holds (
          safe,
          own,
          All-append Shielded (payload_blocks payload) (user_blocks prompt)
              (payload_blocks-Shielded payload) (user_blocks-Shielded prompt),
        )))

  -- The blocks of a job or notification begin with one that shows only the safe keys of the route's
  -- context, and with the router's own block of the event, which holds the event's metadata and
  -- nothing else; no block after these, of the payload or of the prompt, holds an opening of such a
  -- block.
  pub build_synthetic_prompt_blocks-Shielded :
      (route_context metadata : Fields) (prompt : Text) (payload : Option Text)
      → {blocks : List Block}
      → build_synthetic_prompt_blocks py files route_context metadata prompt payload ≡ ok blocks
      → SyntheticBlocks metadata blocks
  build_synthetic_prompt_blocks-Shielded route_context metadata prompt payload e =
      (synthetic-Holds route_context metadata prompt payload).of_ok _ e
