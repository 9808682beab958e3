-- ===== src/Http/Monad/Laws.antt =====
-- What a successful call says of its steps.
use tamga_go.Base.{◌≡◌, refl}
use tamga_go.Errors.{Result, ok, err}
use tamga_go.Http.{History}
use tamga_go.Http.Monad.{M, bind}

-- A successful step of a call, and where it left the history.
pub bind-eq-ok :
    {A B : Type 0} (r : History × Result A) (f : A → M B) (h : History) (b : B)
    → bind r f ≡ (h, ok b)
    → (a : A) × (r ≡ (r.0, ok a)) × (f a r.0 ≡ (h, ok b))
bind-eq-ok (h', ok a) f h b q = (a, refl, q)
bind-eq-ok (h', err e) f h b q = absurd (cc)
