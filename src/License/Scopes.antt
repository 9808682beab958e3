-- ===== src/License/Scopes.antt =====
-- license.go: what the JSON of a scope says of it.
use tamga_go.Base.{
  ◌∙◌, ◌≡◌, ◌↔◌, ap, sym, refl, false, Option, none, some, List, [], ◌∷◌, ◌++◌, if◌then◌else◌,
}
use tamga_go.Json.{object, Json, Fields, Object, done, field, str, fields, texts}
use tamga_go.Text.{Bytes, codes, ◌==◌}
use tamga_go.Text.Laws.{==_refl}
use tamga_go.Resource.{Scope}
use tamga_go.License.{text_field, list_field, scope_fields, marshal_scope}
use tamga_go.Http.{Env}

unfoldable value_at : Bytes → Fields → Option Json
value_at k done = none
value_at k (field j v o) = let later = value_at k o in if j == k then some v else later

-- No field goes by the key.
abbrev Lacks : Bytes → Object → Type 0
Lacks k o = value_at k (fields o) ≡ none

Lacks-text_field :
    (k j : Bytes) (o : Option Bytes) (r : Object)
    → (j == k) ≡ false
    → Lacks k r
    → Lacks k (text_field j o ++ r)
unfolding value_at
Lacks-text_field k j none r n h = h
Lacks-text_field k j (some s) r n h = rw n h

Lacks-list_field : (k j : Bytes) (l : List Bytes) → (j == k) ≡ false → Lacks k (list_field j l)
unfolding value_at
Lacks-list_field k j [] n = refl
Lacks-list_field k j (s ∷ l) n = rw n refl

text_field-injective :
    (k : Bytes) (o p : Option Bytes) (r t : Object)
    → Lacks k r
    → Lacks k t
    → fields (text_field k o ++ r) ≡ fields (text_field k p ++ t)
    → (o ≡ p) × (fields r ≡ fields t)
unfolding value_at
text_field-injective k none none r t g h q = (refl, q)
text_field-injective k (some a) (some b) r t g h q = (cc, cc)
text_field-injective k none (some b) r t g h q =
    let there : value_at k (fields (text_field k (some b) ++ t)) ≡ some (str b) =
      rw (==_refl k) refl in
    absurd (cc (sym g, there))
text_field-injective k (some a) none r t g h q =
    let here : value_at k (fields (text_field k (some a) ++ r)) ≡ some (str a) =
      rw (==_refl k) refl in
    absurd (cc (sym h, ap (value_at k) q, here))

texts-injective : (l m : List Bytes) → texts l ≡ texts m → l ≡ m
texts-injective [] [] q = refl
texts-injective [] (s ∷ m) q = absurd (cc)
texts-injective (s ∷ l) [] q = absurd (cc)
texts-injective (s ∷ l) (t ∷ m) q =
    let rest : texts l ≡ texts m = cc in
    let same : s ≡ t = cc in cc (same, texts-injective l m rest)

list_field-injective :
    (k : Bytes) (l m : List Bytes) → fields (list_field k l) ≡ fields (list_field k m) → l ≡ m
list_field-injective k [] [] q = refl
list_field-injective k [] (s ∷ m) q = absurd (cc)
list_field-injective k (s ∷ l) [] q = absurd (cc)
list_field-injective k (s ∷ l) (t ∷ m) q = texts-injective (s ∷ l) (t ∷ m) (cc)

abbrev pub Agree : Scope → Scope → Type 0
Agree s t =
    (s.product ≡ t.product)
    × (s.policy ≡ t.policy)
    × (s.user ≡ t.user)
    × (s.environment ≡ t.environment)
    × (s.fingerprint ≡ t.fingerprint)
    × (s.entitlements ≡ t.entitlements)

-- What follows each of the fields.
abbrev after_fingerprint : Scope → Object
after_fingerprint s = list_field (codes "entitlements") s.entitlements

abbrev after_environment : Scope → Object
after_environment s = text_field (codes "fingerprint") s.fingerprint ++ after_fingerprint s

abbrev after_user : Scope → Object
after_user s = text_field (codes "environment") s.environment ++ after_environment s

abbrev after_policy : Scope → Object
after_policy s = text_field (codes "user") s.user ++ after_user s

abbrev after_product : Scope → Object
after_product s = text_field (codes "policy") s.policy ++ after_policy s

Lacks-after_environment :
    (k : Bytes) (s : Scope)
    → (codes "fingerprint" == k) ≡ false
    → (codes "entitlements" == k) ≡ false
    → Lacks k (after_environment s)
Lacks-after_environment k s n m =
    Lacks-text_field k (codes "fingerprint") s.fingerprint (after_fingerprint s) n
      (Lacks-list_field k (codes "entitlements") s.entitlements m)

Lacks-after_user :
    (k : Bytes) (s : Scope)
    → (codes "environment" == k) ≡ false
    → (codes "fingerprint" == k) ≡ false
    → (codes "entitlements" == k) ≡ false
    → Lacks k (after_user s)
Lacks-after_user k s l n m =
    Lacks-text_field k (codes "environment") s.environment (after_environment s) l
      (Lacks-after_environment k s n m)

Lacks-after_policy :
    (k : Bytes) (s : Scope)
    → (codes "user" == k) ≡ false
    → (codes "environment" == k) ≡ false
    → (codes "fingerprint" == k) ≡ false
    → (codes "entitlements" == k) ≡ false
    → Lacks k (after_policy s)
Lacks-after_policy k s u l n m =
    Lacks-text_field k (codes "user") s.user (after_user s) u (Lacks-after_user k s l n m)

scope_fields-Agree : (s t : Scope) → fields (scope_fields s) ≡ fields (scope_fields t) → Agree s t
unfolding scope_fields ◌==◌
scope_fields-Agree s t q =
    let q₀ : fields (text_field (codes "product") s.product ++ after_product s)
        ≡ fields (text_field (codes "product") t.product ++ after_product t) =
      cc in
    let (product, q₁) =
      text_field-injective (codes "product") s.product t.product (after_product s) (after_product t)
        (Lacks-text_field (codes "product") (codes "policy") s.policy (after_policy s) refl
          (Lacks-after_policy (codes "product") s refl refl refl refl))
        (Lacks-text_field (codes "product") (codes "policy") t.policy (after_policy t) refl
          (Lacks-after_policy (codes "product") t refl refl refl refl))
        q₀ in
    let (policy, q₂) =
      text_field-injective (codes "policy") s.policy t.policy (after_policy s) (after_policy t)
        (Lacks-after_policy (codes "policy") s refl refl refl refl)
        (Lacks-after_policy (codes "policy") t refl refl refl refl) q₁ in
    let (user, q₃) =
      text_field-injective (codes "user") s.user t.user (after_user s) (after_user t)
        (Lacks-after_user (codes "user") s refl refl refl)
        (Lacks-after_user (codes "user") t refl refl refl) q₂ in
    let (environment, q₄) =
      text_field-injective (codes "environment") s.environment t.environment (after_environment s)
        (after_environment t) (Lacks-after_environment (codes "environment") s refl refl)
        (Lacks-after_environment (codes "environment") t refl refl) q₃ in
    let (fingerprint, q₅) =
      text_field-injective (codes "fingerprint") s.fingerprint t.fingerprint (after_fingerprint s)
        (after_fingerprint t)
        (Lacks-list_field (codes "fingerprint") (codes "entitlements") s.entitlements refl)
        (Lacks-list_field (codes "fingerprint") (codes "entitlements") t.entitlements refl) q₄ in
    (
      product,
      policy,
      user,
      environment,
      fingerprint,
      list_field-injective (codes "entitlements") s.entitlements t.entitlements q₅,
    )

scope_fields-of_Agree : (s t : Scope) → Agree s t → scope_fields s ≡ scope_fields t
unfolding scope_fields
scope_fields-of_Agree s t (p, q, u, e, f, l) = rw (p, q, u, e, f, l) refl

object-injective : (o p : Object) → some (object o) ≡ some (object p) → fields o ≡ fields p
object-injective o p q = cc

module _ (env : Env) (decode : Bytes → Option Json) where
  -- The fields of the scope are encoded, and decoding reads them back as they were: as decoding JSON
  -- does for texts in UTF-8, but not for others, in which the encoder replaces bytes.
  abbrev pub ReadsBack : Scope → Type 0
  ReadsBack s =
      (text : Bytes) × (env.marshal (object (scope_fields s)) ≡ some text)
      × (decode text ≡ some (object (scope_fields s)))

  marshal_scope-Agree :
      (s t : Scope)
      → ReadsBack s
      → ReadsBack t
      → marshal_scope env s ≡ marshal_scope env t
      → Agree s t
  unfolding marshal_scope
  marshal_scope-Agree s t (a, written, read) (b, written', read') q =
      let same : a ≡ b = cc in
      scope_fields-Agree s t
        (object-injective (scope_fields s) (scope_fields t) (sym read ∙ ap decode same ∙ read'))

  marshal_scope-of_Agree : (s t : Scope) → Agree s t → marshal_scope env s ≡ marshal_scope env t
  unfolding marshal_scope
  marshal_scope-of_Agree s t a = ap (λ o. env.marshal (object o)) (scope_fields-of_Agree s t a)

  -- Two scopes whose fields JSON reads back as they were, as it does for texts in UTF-8, have one JSON
  -- text if and only if they agree on the product, the policy, the user, the environment, the
  -- fingerprint and the entitlements: each of these is sent, a missing text apart from an empty one,
  -- and the version and the checksum are not.
  pub marshal_scope-Agree_iff :
      (s t : Scope)
      → ReadsBack s
      → ReadsBack t
      → (marshal_scope env s ≡ marshal_scope env t) ↔ Agree s t
  marshal_scope-Agree_iff s t r r' = (marshal_scope-Agree s t r r', marshal_scope-of_Agree s t)
