-- ===== src/Router/Delivery.antt =====
-- router.py: which messages `_send_once` sends.
use mathlib.Core.List.{Memᴰ}
use signal_hermes_router.Prelude.{
  ℕ, ◌≡◌, ◌≢◌, ◌⊎◌, Bool, true, String, List, [], ◌∷◌, some, length, take,
}
use signal_hermes_router.Text.{Text}
use signal_hermes_router.Router.State.{Outside, Progress, Raise, Attempt, ok, Effect, sends}

-- The messages of chunks: the attachments go with the first one.
abbrev pub messages : String → List Text → List String → List Effect
messages to [] paths = []
messages to (c ∷ cs) paths = sends to c paths ∷ messages to cs []

-- Effects in the order in which they happen, on those before.
abbrev pub happen : List Effect → List Effect → List Effect
happen [] before = before
happen (e ∷ es) before = happen es (e ∷ before)

-- What a send of chunks does: the first `count` are sent, in order, and it succeeds exactly when
-- none of those fails, with all of them sent.
pub record Sent (o : Outside) (to : String) (chunks : List Text) (paths : List String)
    (before : List Effect) (result : Attempt Bool × Progress) : Type 0 where
  pub count : ℕ
  pub effects : result.1.effects ≡ happen (messages to (take count chunks) paths) before
  pub outcome :
      ((result.0 ≡ ok true) × (count ≡ length chunks))
      ⊎ ((result.0 ≢ ok true)
          × ((c : Text) × (r : Raise) × Memᴰ c chunks × (o.send_raises c ≡ some r)))
