-- ===== src/Tracking/Laws.antt =====
-- A token that was signed is read back.
use Prim.Native.String.append
use nudging_tool.Prelude.{
  ℕ, ◌%◌, code, String, ◌<>◌, ◌≡◌, refl, ap, ◌∙◌, sym, Bool, false, ◌||◌, some, eq_iff, eqb,
  is_empty, arith, Bool-cases, inl, inr,
}
use nudging_tool.Json.{str, obj, end, field, get}
use nudging_tool.Session.{ok}
use nudging_tool.Tracking.{
  Codec, rstrip_equals, size, padding, split_dot, urlsafe_b64encode, urlsafe_b64decode, payload_of,
  sign_token, unsign_token,
}

-- Whether a character stands in a text.
abbrev pub has_char : ℕ → String → Bool
has_char k String.[] = false
has_char k (String.◌∷◌ c s) = eqb (code c) k || has_char k s

-- What base64 is documented to do with some bytes: it decodes what it encodes, its alphabet has no
-- dot, and `=` only fills the text up to a multiple of four.
pub record Documented (codec : Codec) (raw : String) : Type 0 where
  pub decodes : codec.b64decode (codec.b64encode raw) ≡ ok raw
  pub body : String
  pub filled : codec.b64encode raw ≡ body <> padding (size body)
  pub no_fill : has_char b'=' body ≡ false
  pub no_dot : has_char b'.' body ≡ false

rstrip_equals-padding : (n : ℕ) → rstrip_equals (padding n) ≡ ""
unfolding rstrip_equals padding
rstrip_equals-padding n = elim (Bool-cases (eqb (n % 4) 0)) [
  | inl zero_left ↦ rw zero_left refl
  | inr more ↦ elim (Bool-cases (eqb (n % 4) 1)) [
    | inl one_left ↦ rw (more, one_left) refl
    | inr many ↦ elim (Bool-cases (eqb (n % 4) 2)) [
      | inl two_left ↦ rw (more, many, two_left) refl
      | inr three_left ↦ rw (more, many, three_left) refl
    ]
  ]
]

rstrip_equals-append :
    (body fill : String)
    → has_char b'=' body ≡ false
    → rstrip_equals fill ≡ ""
    → rstrip_equals (body <> fill) ≡ body
unfolding rstrip_equals
rstrip_equals-append String.[] fill h e = ap rstrip_equals (append.nil fill) ∙ e
rstrip_equals-append (String.◌∷◌ c s) fill h e =
    ap rstrip_equals (append.cons c s fill)
    ∙ ground (arith, rstrip_equals-append s fill (ground arith) e)

split_dot-append :
    (body rest : String)
    → has_char b'.' body ≡ false
    → split_dot (body <> ("." <> rest)) ≡ some (body, rest)
unfolding split_dot
split_dot-append String.[] rest h =
    ap split_dot (append.nil ("." <> rest) ∙ append.cons _ "" rest)
    ∙ ap (λ s. some ("", s)) (append.nil rest)
split_dot-append (String.◌∷◌ c s) rest h =
    ap split_dot (append.cons c s ("." <> rest))
    ∙ ground (arith, split_dot-append s rest (ground arith))

encoded :
    (codec : Codec) (raw : String)
    → Documented codec raw
    → (has_char b'.' (urlsafe_b64encode codec raw) ≡ false)
      × (urlsafe_b64decode codec (urlsafe_b64encode codec raw) ≡ ok raw)
unfolding urlsafe_b64encode urlsafe_b64decode
encoded codec raw d =
    let stripped : rstrip_equals (codec.b64encode raw) ≡ d.body =
      ap rstrip_equals d.filled
      ∙ rstrip_equals-append d.body (padding (size d.body)) d.no_fill
          (rstrip_equals-padding (size d.body)) in
    (
      ap (has_char b'.') stripped ∙ d.no_dot,
      ap (λ b. codec.b64decode (b <> padding (size b))) stripped
          ∙ ap codec.b64decode (sym d.filled)
          ∙ d.decodes,
    )

-- The token that is signed for a notification is accepted under the same secret, and gives the
-- notification's id, which is not empty. base64 treats the payload and the signature as its
-- documentation says, and JSON reads back the payload that it wrote.
pub unsign_token-sign_token :
    (codec : Codec) (secret notification_id : String)
    → is_empty notification_id ≡ false
    → Documented codec (codec.json_dumps (field "notification_id" (str notification_id) end))
    → Documented codec (codec.hmac_sha256 secret (payload_of codec notification_id))
    → codec.json_loads (codec.json_dumps (field "notification_id" (str notification_id) end))
      ≡ ok (obj (field "notification_id" (str notification_id) end))
    → unsign_token codec secret (sign_token codec secret notification_id) ≡ ok notification_id
unfolding unsign_token sign_token get
unsign_token-sign_token codec secret notification_id filled written signed loads =
    let signature = codec.hmac_sha256 secret (payload_of codec notification_id) in
    rw
      (
        split_dot-append (payload_of codec notification_id) (urlsafe_b64encode codec signature)
            (encoded codec _ written).0,
        (encoded codec signature signed).1,
        (eq_iff signature signature).1 refl,
        (encoded codec _ written).1,
        loads,
        filled,
      )
      refl
