-- ===== src/Sandbox/ViewAccess.antt =====
-- services/sandbox-manager/src/viewAccess.ts: the tokens of a sandbox's view. `digest` is the HMAC of
-- node's crypto library under the secret, in base64url. `viewUrl` is left out.
use noudle_agents.Base.{
  arith, ◌∙◌, if◌then◌else◌, ◌≡◌, ◌≢◌, ap, ◌↔◌, String, Option, none, some, Bool, true, false, ◌==◌,
  eq_iff, Bool-cases, inl, inr,
}
use noudle_agents.Base.Text
use noudle_agents.App.{Result, ok, err, Failure}
use noudle_agents.Sandbox.Security.{is_safe_key, require_safe_key, then_safe}

-- What `token` signs.
abbrev pub signed_text : String → String
signed_text id = Text.append "relay-sandbox-view:v1:" id

unfoldable pub token : (String → String) → String → Result String
token digest id = then_safe (require_safe_key id "sandbox id") λ key. ok (digest (signed_text key))

-- The comparison of the two texts; a failure of `token` is caught.
abbrev pub agrees : Result String → String → Bool
agrees (ok expected) supplied = expected == supplied
agrees (err x) supplied = false

abbrev pub validate_text : (String → String) → String → String → Bool
validate_text digest id candidate =
    if candidate == "" then false else agrees (token digest id) candidate

unfoldable pub validate : (String → String) → String → Option String → Bool
validate digest id none = false
validate digest id (some candidate) = validate_text digest id candidate

ok_injective : (s t : String) → ok s ≡ ok t → s ≡ t
ok_injective s t h = cc

err-ne : (x : Failure) (t : String) → err x ≡ ok t → ⊥
err-ne x t h = cc

agrees-token : (r : Result String) (t : String) → agrees r t ≡ true → r ≡ ok t
agrees-token (ok s) t h = ap ok ((eq_iff s t).0 h)
agrees-token (err x) t h = absurd cc

token-agrees : (r : Result String) (t : String) → r ≡ ok t → agrees r t ≡ true
token-agrees (ok s) t h = (eq_iff s t).1 (ok_injective s t h)
token-agrees (err x) t h = absurd (err-ne x t h)

-- A candidate that is not empty is validated for a sandbox exactly when it is the sandbox's token.
pub validate-token :
    (digest : String → String) (id candidate : String)
    → candidate ≢ ""
    → (validate digest id (some candidate) ≡ true) ↔ (token digest id ≡ ok candidate)
unfolding validate
validate-token digest id candidate filled = elim (Bool-cases (candidate == "")) [
  | inl empty ↦ absurd (filled ((eq_iff candidate "").0 empty))
  | inr t ↦
      rw t (agrees-token (token digest id) candidate, token-agrees (token digest id) candidate)
]

token-text :
    (digest : String → String) (id t : String)
    → token digest id ≡ ok t
    → (is_safe_key id ≡ true) × (digest (signed_text id) ≡ t)
unfolding token require_safe_key
token-text digest id t h = elim (Bool-cases (is_safe_key id)) [
  | inl e ↦ (e, ok_injective (digest (signed_text id)) t (rw e at h))
  | inr e ↦ absurd (err-ne _ t (rw e at h))
]

safe-token :
    (digest : String → String) (id : String)
    → is_safe_key id ≡ true
    → token digest id ≡ ok (digest (signed_text id))
unfolding token require_safe_key
safe-token digest id h = rw h

-- The candidate is the signature of the sandbox's text, and the sandbox's id is a safe key.
abbrev pub IsSignature : (String → String) → String → Option String → Type 0
IsSignature digest id none = ⊥
IsSignature digest id (some candidate) =
    (candidate ≢ "") × (is_safe_key id ≡ true) × (digest (signed_text id) ≡ candidate)

validate-text :
    (digest : String → String) (id candidate : String)
    → validate digest id (some candidate) ≡ true
    → IsSignature digest id (some candidate)
unfolding validate
validate-text digest id candidate h = elim (Bool-cases (candidate == "")) [
  | inl empty ↦ absurd (ground arith)
  | inr t ↦
      let filled : candidate ≢ "" = λ same. ground (arith, t, same, eq_iff candidate "") in
      let (safe, signed) =
        token-text digest id candidate ((validate-token digest id candidate filled).0 h) in
      (filled, safe, signed)
]

-- Whatever the digest, `validate` accepts exactly a candidate that is there, is not empty, and is
-- the digest of the text that is signed for the sandbox, where the sandbox's id is a safe key.
pub validate-IsSignature :
    (digest : String → String) (id : String) (o : Option String)
    → (validate digest id o ≡ true) ↔ IsSignature digest id o
unfolding validate
validate-IsSignature digest id none = (λ h. cc, λ h. absurd h)
validate-IsSignature digest id (some candidate) = (
  validate-text digest id candidate,
  λ (filled, safe, signed).
      (validate-token digest id candidate filled).1 (safe-token digest id safe ∙ ap ok signed),
)
