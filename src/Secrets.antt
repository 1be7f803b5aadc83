-- ===== src/Secrets.antt =====
-- src/signal_hermes_router/secrets.py: the secret references of a document (`resolve_secret_refs`).
--
-- `resolve_secret_uri` reads files, the environment and the output of a command: it is a parameter.
use signal_hermes_router.Prelude.{String, Bool, List, [], ◌∷◌, any, if◌then◌else◌}
use signal_hermes_router.Text.{codes, starts_with}
use signal_hermes_router.Values.{
  Value, null, boolean, int, float, string, list, mapping, opaque, Items, nil, cons, Fields, end,
  field, Result, ok, ◌>>=◌,
}

abbrev secret_prefixes : List String
secret_prefixes = "file://" ∷ "env://" ∷ "op://" ∷ "systemd-credential://" ∷ []

unfoldable pub is_secret : String → Bool
is_secret s = any (λ p. starts_with (codes s) (codes p)) secret_prefixes

abbrev resolve_string : (String → Result String) → String → Result Value
resolve_string resolve_secret_uri s =
    if is_secret s then (resolve_secret_uri s >>= λ t. ok (string t)) else ok (string s)

unfoldable mutual
  pub resolve_secret_refs : (String → Result String) → Value → Result Value
  resolve_secret_refs uri null = ok null
  resolve_secret_refs uri (boolean b) = ok (boolean b)
  resolve_secret_refs uri (int z) = ok (int z)
  resolve_secret_refs uri (float f) = ok (float f)
  resolve_secret_refs uri (string s) = resolve_string uri s
  resolve_secret_refs uri (list xs) = resolve_items uri xs >>= λ ys. ok (list ys)
  resolve_secret_refs uri (mapping d) = resolve_fields uri d >>= λ e. ok (mapping e)
  resolve_secret_refs uri (opaque n) = ok (opaque n)

  pub resolve_items : (String → Result String) → Items → Result Items
  resolve_items uri nil = ok nil
  resolve_items uri (cons v vs) =
      resolve_secret_refs uri v >>= λ w. resolve_items uri vs >>= λ ws. ok (cons w ws)

  pub resolve_fields : (String → Result String) → Fields → Result Fields
  resolve_fields uri end = ok end
  resolve_fields uri (field k v rest) =
      resolve_secret_refs uri v >>= λ w. resolve_fields uri rest >>= λ more. ok (field k w more)
