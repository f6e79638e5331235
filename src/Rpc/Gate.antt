-- ===== src/Rpc/Gate.antt =====
-- Who is served by memnode/rpc.py.
use peer_memory.Prelude.{
  ◌≡◌, refl, sym, ap, ◌⊎◌, inl, inr, Bool, true, false, ◌&&◌, Option, none, some, List, [], ◌∷◌,
  nat_eq, list_eq, ◌==◌, ==_iff, Result, ok, raise, arith, Bool-cases,
}
use peer_memory.Prelude.Text.{Str, Bytes}
use peer_memory.Prelude.Text.{codes}
use peer_memory.Wire.Message.{
  Value, nil_value, boolean, integer, double, binary, text, array, dictionary, Fields, field_at,
}
use peer_memory.Rpc.Auth.{AuthError, compare_digest, verify_response, is_ascii}
use peer_memory.Rpc.Client.{
  ReadError, incomplete, value_error, other_error, Decoder, read_frame, Reply, response, Outcome,
  Verdict, admitted, refused, silent, crashed, verdict, judge, authenticate, after_verdict,
  handle_client,
}

abbrev pub answers : {R : Type 0} → List (Reply R) → List R
answers [] = []
answers (response r ∷ rest) = r ∷ answers rest
answers (_ ∷ rest) = answers rest

-- Nothing was done for the client.
abbrev pub Untouched : {S R : Type 0} → S → Outcome S R → Type 0
Untouched st after = (after.state ≡ st) × (answers after.replies ≡ [])

module _ (hmac : Str → Str → Str) (token challenge : Str) where
  -- The client's first frame has the answer that the token gives to this challenge.
  abbrev pub Proves : Decoder → Bytes → Type 0
  Proves json reader =
      (body : Fields) × ((read_frame json reader none).1 ≡ ok (dictionary body))
      × (field_at body (codes "response") ≡ some (text (hmac token challenge)))

  compare_digest-ok : (a b : Str) → compare_digest a b ≡ ok true → b ≡ a
  unfolding compare_digest
  compare_digest-ok a b h = elim (Bool-cases (is_ascii a && is_ascii b)) [
    | inl plain ↦
        (let same : (a == b) ≡ true = ground (arith, h, plain) in sym ((==_iff a b).0 same))
    | inr other ↦ absurd (let f : ⊥ = ground (arith, h, other) in f)
  ]

  verify_response-ok :
      (v : Option Value)
      → verify_response hmac token challenge v ≡ ok true
      → v ≡ some (text (hmac token challenge))
  unfolding verify_response
  verify_response-ok (some (text t)) h =
      ap (λ x. some (text x)) (compare_digest-ok (hmac token challenge) t h)
  verify_response-ok none h = absurd (let f : ⊥ = ground (arith, h) in f)
  verify_response-ok (some nil_value) h = absurd (let f : ⊥ = ground (arith, h) in f)
  verify_response-ok (some (boolean _)) h = absurd (let f : ⊥ = ground (arith, h) in f)
  verify_response-ok (some (integer _)) h = absurd (let f : ⊥ = ground (arith, h) in f)
  verify_response-ok (some (double _)) h = absurd (let f : ⊥ = ground (arith, h) in f)
  verify_response-ok (some (binary _)) h = absurd (let f : ⊥ = ground (arith, h) in f)
  verify_response-ok (some (array _)) h = absurd (let f : ⊥ = ground (arith, h) in f)
  verify_response-ok (some (dictionary _)) h = absurd (let f : ⊥ = ground (arith, h) in f)

  verdict-admitted :
      (rest after : Bytes) (r : Result AuthError Bool)
      → verdict rest r ≡ admitted after
      → r ≡ ok true
  unfolding verdict
  verdict-admitted rest after (ok true) h = refl
  verdict-admitted rest after (ok false) h = absurd (let f : ⊥ = ground (arith, h) in f)
  verdict-admitted rest after (raise _) h = absurd (let f : ⊥ = ground (arith, h) in f)

  -- The frame that was read answers the challenge.
  abbrev Answers : Result ReadError Value → Type 0
  Answers r =
      (body : Fields) × (r ≡ ok (dictionary body))
      × (field_at body (codes "response") ≡ some (text (hmac token challenge)))

  judge-admitted :
      (rest after : Bytes) (r : Result ReadError Value)
      → judge hmac token challenge (rest, r) ≡ admitted after
      → Answers r
  unfolding judge
  judge-admitted rest after (ok (dictionary body)) h = (
    body,
    refl,
    verify_response-ok (field_at body (codes "response")) (
        verdict-admitted rest after
          (verify_response hmac token challenge (field_at body (codes "response"))) h),
  )
  judge-admitted rest after (ok nil_value) h = absurd (let f : ⊥ = ground (arith, h) in f)
  judge-admitted rest after (ok (boolean _)) h = absurd (let f : ⊥ = ground (arith, h) in f)
  judge-admitted rest after (ok (integer _)) h = absurd (let f : ⊥ = ground (arith, h) in f)
  judge-admitted rest after (ok (double _)) h = absurd (let f : ⊥ = ground (arith, h) in f)
  judge-admitted rest after (ok (binary _)) h = absurd (let f : ⊥ = ground (arith, h) in f)
  judge-admitted rest after (ok (text _)) h = absurd (let f : ⊥ = ground (arith, h) in f)
  judge-admitted rest after (ok (array _)) h = absurd (let f : ⊥ = ground (arith, h) in f)
  judge-admitted rest after (raise incomplete) h = absurd (let f : ⊥ = ground (arith, h) in f)
  judge-admitted rest after (raise value_error) h = absurd (let f : ⊥ = ground (arith, h) in f)
  judge-admitted rest after (raise other_error) h = absurd (let f : ⊥ = ground (arith, h) in f)

  -- What follows a verdict, if the admission is backed by an answer.
  after_verdict-gate :
      {S R : Type 0} (serve : Bool → S → Fields → S × R) (json msgpack : Decoder) (st : S)
      (reader : Bytes) (v : Verdict)
      → ((after : Bytes) → v ≡ admitted after → Proves json reader)
      → Untouched st (after_verdict serve json msgpack challenge st v) ⊎ Proves json reader
  unfolding after_verdict
  after_verdict-gate serve json msgpack st reader (admitted rest) h = inr (h rest refl)
  after_verdict-gate serve json msgpack st reader refused h = inl (refl, refl)
  after_verdict-gate serve json msgpack st reader silent h = inl (refl, refl)
  after_verdict-gate serve json msgpack st reader crashed h = inl (refl, refl)

-- Where authentication is needed, a client changes the state or has a request answered only if its first frame answers the
-- challenge as the token does.
pub handle_client-gate :
    {S R : Type 0} (serve : Bool → S → Fields → S × R) (json msgpack : Decoder)
    (hmac : Str → Str → Str) (token challenge : Str) (st : S) (reader : Bytes)
    → Untouched st (handle_client serve json msgpack hmac token challenge true st reader)
      ⊎ Proves hmac token challenge json reader
unfolding handle_client authenticate
handle_client-gate serve json msgpack hmac token challenge st reader =
    after_verdict-gate hmac token challenge serve json msgpack st reader
      (judge hmac token challenge (read_frame json reader none))
      (λ after h.
        judge-admitted hmac token challenge (read_frame json reader none).0 after
          (read_frame json reader none).1 h)
