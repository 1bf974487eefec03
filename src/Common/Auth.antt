-- ===== src/Common/Auth.antt =====
-- crates/dtmpfs-meta/src/auth.rs, whose text crates/dtmpfs-store/src/auth.rs repeats, and `authed`
-- of crates/dtmpfs-client/src/fs.rs: the token that every call carries. The header values of tonic
-- are a parameter.
use dtmpfs.Prelude.{
  ◌≡◌, ◌≢◌, ◌⊎◌, inl, inr, String, Option, none, some, unwrap_or, string_eq, ◌==◌, arith,
  Bool-cases, if◌then◌else◌,
}
use text.Mathlib.TextEquality.{eq_iff}
use dtmpfs.Common.Error.{Status, Result, done, fail, unauthenticated, errno, from_status, eacces}

-- `MetadataValue<Ascii>` of tonic: a text is parsed into a header value, if it may stand in one,
-- and a value is read as text, if it is text.
pub record Metadata : Type 1 where
  pub Value : Type 0
  pub parse : String → Option Value
  pub to_str : Value → Option String

-- What tonic promises: a value that is read as text is read as the text that it was parsed from.
abbrev pub IsMetadata : Metadata → Type 0
IsMetadata m = (t u : String) (v : m.Value) → m.parse t ≡ some v → m.to_str v ≡ some u → u ≡ t

abbrev pub invalid_token : Status
invalid_token = record { code = unauthenticated; message = "invalid cluster token" }

abbrev pub text_of : (m : Metadata) → Option m.Value → Option String
text_of m none = none
text_of m (some v) = m.to_str v

-- The header of a request, if it has one, is read as text, and as the empty text where it is none.
unfoldable pub check_token : (m : Metadata) → Option m.Value → String → Result (Unit {0})
check_token m header expected =
    if unwrap_or (text_of m header) "" == expected then done tt else fail invalid_token

-- The header that a client sets; `none` where `expect` panics.
unfoldable pub authed : (m : Metadata) → String → Option m.Value
authed m token = m.parse token

-- A service behind `check_token` as its interceptor: a handler runs where the check passes.
unfoldable pub intercept :
    {S A : Type 0} (m : Metadata) → String → Option m.Value → (S → Result A × S) → S → Result A × S
unfolding check_token
intercept m expected header handler s = elim (check_token m header expected) [
  | fail e ↦ (fail e, s)
  | done _ ↦ handler s
]

-- The service refuses, changes nothing, and the client makes EACCES of it.
abbrev pub Refuses : {S A : Type 0} → Result A × S → S → Type 0
Refuses x s = (x ≡ (fail invalid_token, s)) × (errno (from_status invalid_token none) ≡ eacces)

-- What a client comes to that calls a handler with its token, where the service has another or the
-- same.
pub data Checked {S A : Type 0} (m : Metadata) (token expected : String)
    (handler : S → Result A × S) (s : S) : Type 0 where
  panics : authed m token ≡ none → Checked m token expected handler s
  same_token :
      (v : m.Value)
      → authed m token ≡ some v
      → m.to_str v ≡ some token
      → token ≡ expected
      → intercept m expected (some v) handler s ≡ handler s
      → Checked m token expected handler s
  other_token :
      (v : m.Value)
      → authed m token ≡ some v
      → m.to_str v ≡ some token
      → token ≢ expected
      → Refuses (intercept m expected (some v) handler s) s
      → Checked m token expected handler s
  unreadable_open :
      (v : m.Value)
      → authed m token ≡ some v
      → m.to_str v ≡ none
      → expected ≡ ""
      → intercept m expected (some v) handler s ≡ handler s
      → Checked m token expected handler s
  unreadable :
      (v : m.Value)
      → authed m token ≡ some v
      → m.to_str v ≡ none
      → expected ≢ ""
      → Refuses (intercept m expected (some v) handler s) s
      → Checked m token expected handler s

-- A request without the header passes where the token of the cluster is empty.
check_no_token :
    (m : Metadata) (expected : String) → (check_token m none expected ≡ done tt) ⊎ (expected ≢ "")
unfolding check_token
check_no_token m expected = elim (Bool-cases ("" == expected)) [
  | inl e ↦ inl (ground arith)
  | inr e ↦ inr (λ h. ground (arith, eq_iff "" expected))
]
