-- ===== src/Links/Busy.antt =====
-- `retry_busy`: how often it calls, and which answer it returns.
use ai_firewall.Prelude.{
  ℕ, zero, suc, ◌+◌, ◌≤◌, ◌<◌, ◌≡◌, true, false, ◌&&◌, some, ltb, Bool-cases, inl, inr, ◌⊎◌, arith,
}
use ai_firewall.Links.{Answer, is_busy, retry, retry_busy}

-- `last` is the first call, counted from `from`, that is not answered by busy, or else call 30.
pub record IsLast (f : ℕ → Answer) (from last : ℕ) : Type 0 where
  pub reached : from ≤ last
  pub bounded : last ≤ 30
  pub busy_before : (n : ℕ) → from ≤ n → n < last → is_busy (f n) ≡ true
  pub ended : (last ≡ 30) ⊎ (is_busy (f last) ≡ false)

stop_here :
    (f : ℕ → Answer) (tries : ℕ)
    → tries ≤ 30
    → (ltb tries 30 && is_busy (f tries)) ≡ false
    → IsLast f tries tries
stop_here f tries h e = record {
  reached = omega arith;
  bounded = h;
  busy_before = λ n a b. absurd (omega arith);
  ended = elim (Bool-cases (is_busy (f tries))) [ inl b ↦ inl (ground arith) | inr b ↦ inr b ];
}

go_on :
    (f : ℕ → Answer) (tries last : ℕ)
    → is_busy (f tries) ≡ true
    → IsLast f (tries + 1) last
    → IsLast f tries last
go_on f tries last b l = record {
  reached = omega (arith, l.reached);
  bounded = l.bounded;
  busy_before = λ n a c. ground (arith, l.busy_before n);
  ended = l.ended;
}

retry_ends :
    (fuel : ℕ) (f : ℕ → Answer) (tries : ℕ)
    → tries ≤ 30
    → 31 ≤ fuel + tries
    → (last : ℕ) × IsLast f tries last × (retry fuel f tries ≡ some (f last))
unfolding retry
retry_ends zero f tries h e = absurd (omega arith)
retry_ends (suc fuel) f tries h e = elim (Bool-cases (ltb tries 30 && is_busy (f tries))) [
  | inr b ↦ (tries, stop_here f tries h b, rw b)
  | inl b ↦
      let (last, l, r) = retry_ends fuel f (tries + 1) (ground arith) (omega arith) in
      (last, go_on f tries last (ground arith) l, rw b r)
]

-- The loop ends whatever the kernel answers: it returns the first answer that is not busy, after at
-- most 31 calls, or else the answer to the 31st call; the answers before it were all busy.
pub retry_busy_ends :
    (f : ℕ → Answer) → (last : ℕ) × IsLast f 0 last × (retry_busy f ≡ some (f last))
unfolding retry_busy
retry_busy_ends f = retry_ends 31 f 0 (omega arith) (omega arith)
