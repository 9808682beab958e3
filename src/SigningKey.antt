-- ===== src/SigningKey.antt =====
-- signing_key.go: an account's published signing keys, as a set to verify files with.
pub mod Lookup
pub mod Embedded
pub mod Published
use tamga_go.Base.{
  ℕ, Bool, true, false, ◌||◌, not, Option, none, some, List, [], ◌∷◌, eqb, if◌then◌else◌, length,
  take, map,
}
use tamga_go.Text.{Bytes, codes, ◌==◌}
use tamga_go.Errors.{Result, ok, err, GoError, plain, wrap, ◌>>=◌, or_fail}
use tamga_go.Http.{Env, get}
use tamga_go.Http.Monad.{M, bind, pure}
use tamga_go.Client.{Client}
use tamga_go.Client.Decode.{decode_json_api}
use tamga_go.Resource.{SigningKey, Wire}
use tamga_go.Fingerprint.{hex}
use tamga_go.Checkout.{Crypto}

abbrev pub ed25519_algorithm : Bytes
ed25519_algorithm = codes "ed25519"

-- signingKeyEntry
pub record Entry : Type 0 where
  pub key : SigningKey
  pub computed_id : Bytes
  pub public_key : Bytes

pub record SigningKeySet : Type 0 where
  pub entries : List Entry

-- (SigningKey).IsRetired
unfoldable pub is_retired : SigningKey → Bool
is_retired k = elim k.attributes.retired [ none ↦ false | some at ↦ true ]

-- The entries behind a pointer that may be nil.
abbrev pub entries_of : Option SigningKeySet → List Entry
entries_of none = []
entries_of (some s) = s.entries

-- (*SigningKeySet).Len
unfoldable pub len : Option SigningKeySet → ℕ
len s = length (entries_of s)

-- (*SigningKeySet).KeyIDs and Keys
unfoldable pub key_ids : Option SigningKeySet → List Bytes
key_ids s = map (λ e. e.key.id) (entries_of s)

unfoldable pub keys : Option SigningKeySet → List SigningKey
keys s = map (λ e. e.key) (entries_of s)

abbrev pub answers : Bytes → Entry → Bool
answers kid e = e.key.id == kid || e.computed_id == kid

unfoldable pub find_entry : Bytes → List Entry → Option Entry
find_entry kid [] = none
find_entry kid (e ∷ es) = if answers kid e then some e else find_entry kid es

-- (*SigningKeySet).find
unfoldable pub find : Option SigningKeySet → Bytes → Option Entry
unfolding find_entry
find s kid = if kid == [] then none else find_entry kid (entries_of s)

-- (*SigningKeySet).Find
unfoldable pub find_key : Option SigningKeySet → Bytes → Option SigningKey
unfolding find
find_key s kid = elim (find s kid) [ none ↦ none | some e ↦ some e.key ]

unfoldable pub mismatched_in : List Entry → List Bytes
mismatched_in [] = []
mismatched_in (e ∷ es) =
    if not (e.key.id == e.computed_id) then e.key.id ∷ mismatched_in es else mismatched_in es

-- (*SigningKeySet).Mismatched
unfoldable pub mismatched : Option SigningKeySet → List Bytes
unfolding mismatched_in
mismatched s = mismatched_in (entries_of s)

-- How many bytes of the digest an id keeps.
abbrev key_id_prefix_bytes : ℕ
key_id_prefix_bytes = 8

module _ (crypto : Crypto) where
  open crypto use {sha256, decode_base64}

  -- KeyID
  unfoldable pub key_id : Bytes → Bytes
  unfolding hex
  key_id public_key_base64 = hex (take key_id_prefix_bytes (sha256 public_key_base64))

  -- decodeEd25519PublicKey
  unfoldable pub decode_ed25519_public_key : Bytes → Result Bytes
  decode_ed25519_public_key b64 = do
    raw ← or_fail (decode_base64 b64) (wrap (plain (codes "not valid standard base64")))
    if not (eqb (length raw) 32) then err (plain (codes "wrong length")) else ok raw

  abbrev pub entry_of : SigningKey → Bytes → Entry
  entry_of key raw = record {
    key = key;
    computed_id = key_id key.attributes.public_key;
    public_key = raw;
  }

  abbrev pub usable : SigningKey → Result Bytes
  usable key =
      if not (key.attributes.algorithm == ed25519_algorithm)
      then err (plain (codes "skipped"))
      else decode_ed25519_public_key key.attributes.public_key

  abbrev pub keep : SigningKey → Result Bytes → List Entry → List Entry
  keep key (ok raw) es = entry_of key raw ∷ es
  keep key (err e) es = es

  -- The loop of NewSigningKeySet, which skips what it cannot use.
  unfoldable pub entries_from : List SigningKey → List Entry
  unfolding decode_ed25519_public_key key_id
  entries_from [] = []
  entries_from (key ∷ ks) = keep key (usable key) (entries_from ks)

  unfoldable pub new_signing_key_set : List SigningKey → SigningKeySet
  unfolding entries_from
  new_signing_key_set ks = record { entries = entries_from ks }

  abbrev pub embedded : Bytes → SigningKey
  embedded b64 = record {
    id = key_id b64;
    kind = codes "signing-keys";
    attributes = record {
      retired = none;
      algorithm = ed25519_algorithm;
      public_key = b64;
      status = [];
      created = [];
    };
  }

  -- fmt.Errorf around an error, as the loop does for a key that does not decode.
  abbrev at_key : Result Bytes → Result Bytes
  at_key (ok raw) = ok raw
  at_key (err e) = err (wrap e)

  unfoldable pub embedded_entries : List Bytes → Result (List Entry)
  unfolding decode_ed25519_public_key key_id
  embedded_entries [] = ok []
  embedded_entries (b64 ∷ l) = do
    raw ← at_key (decode_ed25519_public_key b64)
    rest ← embedded_entries l
    ok (record { key = embedded b64; computed_id = key_id b64; public_key = raw } ∷ rest)

  -- NewSigningKeySetFromPublicKeys
  unfoldable pub new_signing_key_set_from_public_keys : List Bytes → Result SigningKeySet
  unfolding embedded_entries
  new_signing_key_set_from_public_keys l = do es ← embedded_entries l; ok (record { entries = es })

-- ListSigningKeys
unfoldable pub list_signing_keys : Env → Wire → Client → M (List SigningKey)
unfolding decode_json_api
list_signing_keys env wire c =
    decode_json_api env wire.signing_keys c get (codes "/signing-keys") none

-- GetSigningKeySet
unfoldable pub get_signing_key_set : Crypto → Env → Wire → Client → M SigningKeySet
unfolding list_signing_keys new_signing_key_set
get_signing_key_set crypto env wire c h =
    bind (list_signing_keys env wire c h) (λ ks. pure (new_signing_key_set crypto ks))
