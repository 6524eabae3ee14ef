-- ===== src/Kernel/Policy/RateLimit.antt =====
-- The per-port limit on new connections from one source: `over_rate` of
-- ai-firewall-ebpf/src/main.rs over a sequence of connection attempts.
use ai_firewall.Prelude.{
  ℕ, suc, ◌+◌, ◌-◌, ◌*◌, ◌/◌, ◌%◌, ◌^◌, ◌≤◌, ◌<◌, min, bit_and, ◌≡◌, ◌≢◌, ◌⊎◌, sym, ap, ◌∙◌, subst,
  Option-cases, false, none, some, List, [], ◌∷◌, update, nat_eq, length, ltb, ◌==◌, ==_iff, inl,
  inr, if◌then◌else◌, arith,
}
use ai_firewall.Prelude.Bits.{bit_or_fields, bit_and_ones}
use ai_firewall.Wire.{RateState, family_v4, rate_pack}
use ai_firewall.Kernel.Interface.{Bpf}
use ai_firewall.Kernel.Maps.{Maps}
use ai_firewall.Kernel.Packet.{Source}
use ai_firewall.Kernel.Policy.{rate_key, count_again, rate_step, over_rate}

-- The two fields of a packed limit come back by the kernel's shift and mask.
pub rate_pack_fields :
    (max window : ℕ)
    → window < 2 ^ 16
    → (rate_pack max window / 2 ^ 16 ≡ max) × (bit_and (rate_pack max window) 0xffff ≡ window)
unfolding rate_pack
rate_pack_fields max window h = (
  omega (arith, bit_or_fields 16 max window h),
  omega (arith, bit_or_fields 16 max window h, bit_and_ones 16 (rate_pack max window)),
)

-- Sources and ports have keys of their own.
pub rate_key_injective :
    (a b p q : ℕ) → p < 2 ^ 16 → q < 2 ^ 16 → rate_key a p ≡ rate_key b q → (a ≡ b) × (p ≡ q)
unfolding rate_key
rate_key_injective a b p q hp hq e = omega (arith, bit_or_fields 16 a p hp, bit_or_fields 16 b q hq)

count_again_within :
    (max window t : ℕ) (st : RateState)
    → st.window_start ≤ t
    → t ≤ st.window_start + window
    → t < 2 ^ 64
    → st.count + 1 < 2 ^ 32
    → count_again max window t st ≡ (record st { count = st.count + 1 }, ltb max (st.count + 1))
unfolding count_again
count_again_within max window t st after before t64 c32 =
    ground (arith, elapsed st.window_start t after t64, in_u32 st.count c32)
  where
    elapsed : (s t : ℕ) → s ≤ t → t < 2 ^ 64 → (t + 2 ^ 64 - s) % 2 ^ 64 ≡ t - s
    elapsed s t h k = omega arith

    in_u32 : (c : ℕ) → c + 1 < 2 ^ 32 → (c + 1) % 2 ^ 32 ≡ c + 1
    in_u32 c h = omega arith

module _ (b : Bpf) where
  open b use {Trie}

  -- How many of the attempts at these times `over_rate` lets through.
  pub let_through : Maps Trie → Source → ℕ → List ℕ → ℕ
  let_through m src port [] = 0
  let_through m src port (t ∷ ts) =
      let (m', over) = over_rate b m src port t in
      let rest = let_through m' src port ts in if over then rest else suc rest

  -- The times lie in a window of that many nanoseconds from `start`.
  abbrev pub Within : ℕ → ℕ → List ℕ → Type 0
  Within start window [] = Unit {0}
  Within start window (t ∷ ts) =
      (start ≤ t) × (t ≤ start + window) × (t < 2 ^ 64) × Within start window ts

  abbrev pub window_ns : ℕ → ℕ
  window_ns packed = bit_and packed 0xffff * 1_000_000_000

  -- An attempt inside the window adds one to the count, and passes while the count is in the limit.
  over_rate_within :
      (m : Maps Trie) (src : Source) (port t packed : ℕ) (st : RateState)
      → src.family ≡ family_v4
      → m.tcp_rate port ≡ some packed
      → packed ≢ 0
      → m.rate_state (rate_key src.v4 port) ≡ some st
      → st.window_start ≤ t
      → t ≤ st.window_start + window_ns packed
      → t < 2 ^ 64
      → st.count + 1 < 2 ^ 32
      → over_rate b m src port t ≡ (
        record m {
          rate_state =
              update m.rate_state (rate_key src.v4 port) (record st { count = st.count + 1 });
        },
        ltb (packed / 2 ^ 16) (st.count + 1),
      )
  unfolding over_rate
  over_rate_within m src port t packed st v4 limit on known after before t64 c32 =
      rw (limit, over_rate)
        (rw (off packed on) (
          rw v4 (
            rw (known, rate_step)
              (rw (
                count_again_within (packed / 2 ^ 16) (window_ns packed) t st after before t64
                  c32)))))
    where
      off : (n : ℕ) → n ≢ 0 → (n == 0) ≡ false
      off n h = ground arith

  let_through-Within :
      (m : Maps Trie) (src : Source) (port packed : ℕ) (st : RateState) (ts : List ℕ)
      → src.family ≡ family_v4
      → m.tcp_rate port ≡ some packed
      → packed ≢ 0
      → m.rate_state (rate_key src.v4 port) ≡ some st
      → Within st.window_start (window_ns packed) ts
      → st.count + length ts < 2 ^ 32
      → let_through m src port ts ≡ min (length ts) (packed / 2 ^ 16 - st.count)
  unfolding let_through
  let_through-Within m src port packed st [] v4 limit on known within c32 = omega arith
  let_through-Within m src port packed st (t ∷ ts) v4 limit on known within c32 =
      let st' : RateState = record st { count = st.count + 1 } in
      let m' : Maps Trie = record m {
        rate_state = update m.rate_state (rate_key src.v4 port) st';
      } in
      let ih =
        let_through-Within m' src port packed st' ts v4 limit on
          (ground (arith, ==_iff (rate_key src.v4 port) (rate_key src.v4 port))) within.3
          (omega arith) in
      rw
        (over_rate_within m src port t packed st v4 limit on known within.0 within.1 within.2
          (omega arith))
        (ground (arith, ih))

  -- The first attempt of a window: an unknown source, or one whose last window is over.
  abbrev pub Fresh : Maps Trie → ℕ → ℕ → ℕ → Type 0
  Fresh m key window t =
      (m.rate_state key ≡ none)
      ⊎ ((st : RateState) × (m.rate_state key ≡ some st) × (st.window_start + window < t))

  over_rate_first :
      (m : Maps Trie) (src : Source) (port t packed : ℕ)
      → ((st : RateState) (k : ℕ) → b.rate_insert m.rate_state k st k ≡ some st)
      → src.family ≡ family_v4
      → m.tcp_rate port ≡ some packed
      → packed ≢ 0
      → t < 2 ^ 64
      → Fresh m (rate_key src.v4 port) (window_ns packed) t
      → let (m', over) = over_rate b m src port t in
        (over ≡ false)
        × (m'.rate_state (rate_key src.v4 port) ≡ some (record { window_start = t; count = 1 }))
        × (m'.tcp_rate ≡ m.tcp_rate)
  unfolding over_rate
  over_rate_first m src port t packed inserted v4 limit on t64 (inl unknown) =
      ground (arith, inserted (record { window_start = t; count = 1 }) (rate_key src.v4 port))
  over_rate_first m src port t packed inserted v4 limit on t64 (inr (st, known, over)) =
      let elapsed : (t + 2 ^ 64 - st.window_start) % 2 ^ 64 ≡ t - st.window_start = omega arith in
      ground (arith, ==_iff (rate_key src.v4 port) (rate_key src.v4 port))

  -- Let a port have a limit of `max` new connections in `window` seconds, `max` above 0 and both
  -- u16. Of the attempts of one IPv4 source that fall in one window, from the attempt that starts
  -- it on (the source is unknown, or its last window is over), the
  -- number let through is the smaller of the number of attempts and `max`. Assumed: the insertion
  -- into the kernel's LRU map succeeds, the clock stays below 2^64 ns, and fewer than 2^32 attempts.
  pub let_through-min :
      (m : Maps Trie) (src : Source) (port max window t : ℕ) (ts : List ℕ)
      → ((st : RateState) (k : ℕ) → b.rate_insert m.rate_state k st k ≡ some st)
      → src.family ≡ family_v4
      → m.tcp_rate port ≡ some (rate_pack max window)
      → 0 < max
      → window < 2 ^ 16
      → Fresh m (rate_key src.v4 port) (window * 1_000_000_000) t
      → t < 2 ^ 64
      → Within t (window * 1_000_000_000) ts
      → length (t ∷ ts) < 2 ^ 32
      → let_through m src port (t ∷ ts) ≡ min (length (t ∷ ts)) max
  unfolding let_through
  let_through-min m src port max window t ts inserted v4 limit pos w16 fresh t64 within c32 =
      let packed : ℕ = rate_pack max window in
      let fields = rate_pack_fields max window w16 in
      let ns : window_ns packed ≡ window * 1_000_000_000 = omega (arith, fields) in
      let on : packed ≢ 0 = omega (arith, fields) in
      let first =
        over_rate_first m src port t packed inserted v4 limit on t64
          (subst (λ w. Fresh m (rate_key src.v4 port) w t) (sym ns) fresh) in
      let rest =
        let_through-Within (over_rate b m src port t).0 src port packed
          (record { window_start = t; count = 1 }) ts v4 (ap (λ r. r port) first.2 ∙ limit) on
          first.1 (subst (λ w. Within t w ts) (sym ns) within) (omega arith) in
      rw first.0 (omega (arith, rest, fields))

  -- An attempt leaves the window of every other source and of every other port as it was, provided
  -- that the insertion of a new source evicts no other.
  pub over_rate_elsewhere :
      (m : Maps Trie) (src : Source) (port t v4 port' : ℕ)
      → ((st : RateState) (j k : ℕ) → j ≢ k → b.rate_insert m.rate_state k st j ≡ m.rate_state j)
      → port < 2 ^ 16
      → port' < 2 ^ 16
      → (src.v4 ≢ v4) ⊎ (port ≢ port')
      → (over_rate b m src port t).0.rate_state (rate_key v4 port')
        ≡ m.rate_state (rate_key v4 port')
  unfolding over_rate
  over_rate_elsewhere m src port t v4 port' kept h h' differ =
      let apart : rate_key v4 port' ≢ rate_key src.v4 port =
        λ e. keys_differ (rate_key_injective v4 src.v4 port' port h' h e) differ in
      elim (Option-cases (m.rate_state (rate_key src.v4 port))) [
        | inl new ↦ ground (
          arith,
          kept (record { window_start = t; count = 1 }) (rate_key v4 port') (rate_key src.v4 port)
              apart,
        )
        | inr (st, old) ↦ ground arith
      ]
    where
      keys_differ : {a b p q : ℕ} → (a ≡ b) × (p ≡ q) → (b ≢ a) ⊎ (q ≢ p) → ⊥
      keys_differ e d = ground arith
