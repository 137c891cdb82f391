-- ===== src/Rpc/Ends.antt =====
-- src/rpc.rs, `read_response`: the loop over the headers ends.
use xus_miner.Common.{
  ℕ, zero, suc, ◌+◌, ◌≤◌, ◌≡◌, refl, Bool-cases, inl, inr, Option, none, some, is_empty, Result, ok,
  err, arith,
}
use mathlib.Core.Path.{subst}
use xus_miner.Common.{ok_inj}
use xus_miner.Common.Try.{>>=-eq-ok}
use xus_miner.Rpc.{
  check_status, max_header_bytes, Stream, RpcError, HeaderLine, header_line, header_field, Headers,
  read_headers, finish_reply, read_response, on_ok, first_line,
}
use xus_miner.Rpc.Bounds.{header_line-TakesLine}

-- An answer, in place of an exhausted fuel.
abbrev pub Answers : {A : Type 0} → Option (Result RpcError A) → Type 0
Answers {A} o = (r : Result RpcError A) × (o ≡ some r)

on_ok-Answers :
    {A B : Type 0} (r : Result RpcError A) (next : A → Option (Result RpcError B))
    → ((a : A) → r ≡ ok a → Answers (next a))
    → Answers (on_ok r next)
on_ok-Answers (err e) next h = (err e, refl)
on_ok-Answers (ok a) next h = h a refl

-- Each line takes two bytes at least of what is left of the budget.
read_headers-Answers :
    (fuel : ℕ) (s : Stream) (used : ℕ) (known : Option ℕ)
    → used ≤ max_header_bytes
    → max_header_bytes + 1 ≤ used + fuel
    → Answers (read_headers fuel s used known)
unfolding read_headers
read_headers-Answers zero s used known within enough = absurd (omega arith)
read_headers-Answers (suc fuel) s used known within enough =
    on_ok-Answers (header_line s used) _ (λ l good.
      let t = header_line-TakesLine s used good in
      elim (Bool-cases (is_empty l.text)) [
        | inl last ↦ rw last (ok (record { content_length = known; rest = l.rest }), refl)
        | inr more ↦ rw more (
            on_ok-Answers (header_field known l.text) _ (λ found kept.
              read_headers-Answers fuel l.rest l.used found t.within
                (omega (arith, t.counted, t.grows, enough))))
      ])

finish_reply-Answers : (o : Option (Result RpcError Headers)) → Answers o → Answers (finish_reply o)
unfolding finish_reply
finish_reply-Answers none a = cc (a.1)
finish_reply-Answers (some (err e)) a = (err e, refl)
finish_reply-Answers (some (ok h)) a = (_, refl)

first_line-fits : (s : Stream) {l : HeaderLine} → first_line s ≡ ok l → l.used ≤ max_header_bytes
unfolding first_line
first_line-fits s e =
    let (l', good, e₂) = >>=-eq-ok (header_line s 0) _ e in
    let (_, _, e₃) = >>=-eq-ok (check_status l'.text) _ e₂ in
    subst (λ k. k.used ≤ max_header_bytes) (ok_inj e₃) (header_line-TakesLine s 0 good).within

-- Whatever a peer sends, reading its reply ends, with a body or with an error: the loop over the
-- headers never uses up its fuel, since the header budget ends it first.
pub read_response-Answers : (s : Stream) → Answers (read_response s)
unfolding read_response
read_response-Answers s = on_ok-Answers (first_line s) _ (λ l good. finish_reply-Answers _ (
    read_headers-Answers (max_header_bytes + 1) l.rest l.used none (first_line-fits s good)
      (omega arith)))
