-- ===== src/Client/Laws/Versions.antt =====
-- sanitizeVersion, and which requests carry a credential.
use tamga_go.Base.{ℕ, zero, suc, ◌+◌, ◌≡◌, refl, true, [], ◌∷◌, arith, if◌then◌else◌, All}
use tamga_go.Text.{Bytes}
use tamga_go.Client.{sanitize_from, sanitize_version, is_version_byte}

-- The text is already what sanitizeVersion lets through.
abbrev pub IsVersion : Bytes → Type 0
IsVersion s = All (λ c. is_version_byte c ≡ true) s

-- The subsequence of the bytes that are let through.
unfoldable pub allowed : Bytes → Bytes
allowed [] = []
allowed (c ∷ s) = if is_version_byte c then c ∷ allowed s else allowed s

abbrev pub first : ℕ → Bytes → Bytes
first zero s = []
first (suc n) [] = []
first (suc n) (c ∷ s) = c ∷ first n s

sanitize_from-first :
    (left n : ℕ) (s : Bytes) → left + n ≡ 32 → sanitize_from n s ≡ first left (allowed s)
unfolding sanitize_from allowed
sanitize_from-first zero n [] h = refl
sanitize_from-first (suc left) n [] h = refl
sanitize_from-first zero n (c ∷ s) h = ground arith
sanitize_from-first (suc left) n (c ∷ s) h =
    ground (arith, sanitize_from-first left (suc n) s, sanitize_from-first (suc left) n s)

-- sanitizeVersion keeps the letters, digits, dots and dashes in order, and of these the first 32.
pub sanitize_version-first : (s : Bytes) → sanitize_version s ≡ first 32 (allowed s)
unfolding sanitize_version
sanitize_version-first s = sanitize_from-first 32 0 s (omega arith)
