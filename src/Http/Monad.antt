-- ===== src/Http/Monad.antt =====
-- Calls that talk to the network: the history is the state, and an error ends the call.
pub mod Laws
use tamga_go.Base.{◌∷◌}
use tamga_go.Errors.{Result, ok, err, GoError}
use tamga_go.Http.{History, Event}

abbrev pub M : Type 0 → Type 0
M A = History → History × Result A

abbrev pub bind : {A B : Type 0} → History × Result A → (A → M B) → History × Result B
bind (h, ok a) f = f a h
bind (h, err e) f = (h, err e)

infixl 5 ◌>>=◌ ◌>>◌
abbrev pub ◌>>=◌ : {A B : Type 0} → M A → (A → M B) → M B
◌>>=◌ m f h = bind (m h) f

abbrev pub ◌>>◌ : {B : Type 0} → M (Unit {0}) → M B → M B
m >> k = m >>= λ _. k

abbrev pub pure : {A : Type 0} → A → M A
pure a h = (h, ok a)

abbrev pub fail : {A : Type 0} → GoError → M A
fail e h = (h, err e)

abbrev pub lift : {A : Type 0} → Result A → M A
lift r h = (h, r)

abbrev pub record_event : Event → M (Unit {0})
record_event e h = (e ∷ h, ok tt)
