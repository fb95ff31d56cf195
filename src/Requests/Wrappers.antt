-- ===== src/Requests/Wrappers.antt =====
-- The wrappers of the commands that several plugins offer, over a table of methods that keeps its laws.
use sql_handler.Requests.{
  Registry, wrapper, MethodTable, MethodLaws, add_sql_wrapper, remove_sql_wrapper,
}
use sql_handler.Cursor.{size_mod}
use sql_handler.Outcome.{Outcome, state_of}
use sql_handler.Prelude.{
  ℕ, zero, suc, ◌+◌, ◌-◌, ◌<◌, ◌≡◌, Bool, false, none, List, [], ◌∷◌, Text, lookup, text_eq,
  text_eq_iff, text_eq_refl, length, Bool-cases, inl, inr, arith,
}
use sql_handler.Requests.Entries.{
  add_wraps, remove_unwraps, other_wrap-Counted, other_unwrap-Counted,
}
use sql_handler.Requests.Counts.{
  Call, wrap, unwrap, level, counted_as, offered, suc_minus, lookup-bump, lookup-shrink,
  level_first,
}

module _ {M : Type 0} (t : MethodTable M) (laws : MethodLaws t) where
  method_added :
      (n : ℕ) (m : M) (c : Text)
      → t.find_method c m ≡ offered n
      → t.find_method c (t.add_method c wrapper m) ≡ offered (n + 1)
  method_added zero m c h = ground (arith, laws.find_added c c wrapper m, text_eq_refl c, h)
  method_added (suc n) m c h = ground (arith, laws.find_added c c wrapper m, text_eq_refl c, h)

module _ {M W : Type 0} (t : MethodTable M) (laws : MethodLaws t) where
  abbrev pub run_call : Registry M W → Call → Outcome (Registry M W × Bool)
  run_call r (wrap c) = add_sql_wrapper t r c
  run_call r (unwrap c) = remove_sql_wrapper t r c

  -- A caller that goes on whatever the calls return or throw.
  unfoldable pub run_calls : Registry M W → List Call → Registry M W
  run_calls r [] = r
  run_calls r (c ∷ calls) = run_calls (state_of (run_call r c)).0 calls

  -- The command is no plugin, it is counted `n` times, and it is a method if that is positive.
  pub record Wrapped (c : Text) (n : ℕ) (r : Registry M W) : Type 0 where
    pub no_plugin : lookup c r.plugins ≡ none
    pub count : lookup c r.wrap_counts ≡ counted_as n
    pub method : t.find_method c r.methods ≡ offered n

  wrap-Wrapped :
      (r : Registry M W) (c : Text) (n : ℕ)
      → Wrapped c n r
      → n + 1 < size_mod
      → Wrapped c (n + 1) (state_of (add_sql_wrapper t r c)).0
  wrap-Wrapped r c n v h = rw (add_wraps t laws r c n v.no_plugin v.count h) (record {
    no_plugin = v.no_plugin;
    count = lookup-bump c n r.wrap_counts v.count;
    method = method_added t laws n r.methods c v.method;
  })

  unwrap-Wrapped :
      (r : Registry M W) (c : Text) (n : ℕ)
      → Wrapped c n r
      → n < size_mod
      → Wrapped c (n - 1) (state_of (remove_sql_wrapper t r c)).0
  unfolding remove_sql_wrapper
  unwrap-Wrapped r c zero v h = rw (remove_sql_wrapper, v.method) v
  unwrap-Wrapped r c (suc n) v h =
      rw (remove_unwraps t laws r c n v.method v.count h, suc_minus n)
        (record {
          no_plugin = v.no_plugin;
          count = lookup-shrink c n r.wrap_counts;
          method = ground (arith, laws.find_removed c c r.methods, text_eq_refl c, v.method);
        })

  -- Calls for another command leave this one alone.
  other_wrap-Wrapped :
      (r : Registry M W) (c d : Text) (n : ℕ)
      → text_eq d c ≡ false
      → Wrapped c n r
      → Wrapped c n (state_of (add_sql_wrapper t r d)).0
  other_wrap-Wrapped r c d n ne v =
      let k =
        other_wrap-Counted t laws r c d n (offered n) ne
          (record { no_plugin = v.no_plugin; count = v.count; method = v.method }) in
      record { no_plugin = k.no_plugin; count = k.count; method = k.method }

  other_unwrap-Wrapped :
      (r : Registry M W) (c d : Text) (n : ℕ)
      → text_eq d c ≡ false
      → Wrapped c n r
      → Wrapped c n (state_of (remove_sql_wrapper t r d)).0
  other_unwrap-Wrapped r c d n ne v =
      let k =
        other_unwrap-Counted t laws r c d n (offered n) ne
          (record { no_plugin = v.no_plugin; count = v.count; method = v.method }) in
      record { no_plugin = k.no_plugin; count = k.count; method = k.method }

  run_call-Wrapped :
      (r : Registry M W) (c : Text) (n : ℕ) (call : Call)
      → Wrapped c n r
      → n + 1 < size_mod
      → Wrapped c (level c (call ∷ []) n) (state_of (run_call r call)).0
  unfolding level
  run_call-Wrapped r c n (wrap d) v h = elim (Bool-cases (text_eq d c)) [
    | inl e ↦ rw ((text_eq_iff d c).0 e, text_eq_refl c) (wrap-Wrapped r c n v h)
    | inr e ↦ rw e (other_wrap-Wrapped r c d n e v)
  ]
  run_call-Wrapped r c n (unwrap d) v h = elim (Bool-cases (text_eq d c)) [
    | inl e ↦ rw ((text_eq_iff d c).0 e, text_eq_refl c) (unwrap-Wrapped r c n v (omega arith))
    | inr e ↦ rw e (other_unwrap-Wrapped r c d n e v)
  ]

  -- Let a command that is no plugin be wrapped `n` times, so that it is a method if `n` is positive.
  -- After any calls that wrap and unwrap commands, this one or others, it is wrapped as often as
  -- they say, and it is a method if that is positive, if `n` and the calls are fewer than the
  -- numbers of a `size_t`.
  pub run_calls-Wrapped :
      (r : Registry M W) (c : Text) (n : ℕ) (calls : List Call)
      → Wrapped c n r
      → n + length calls < size_mod
      → Wrapped c (level c calls n) (run_calls r calls)
  unfolding run_calls level
  run_calls-Wrapped r c n [] v h = v
  run_calls-Wrapped r c n (call ∷ calls) v h = rw (level_first c call calls n).0 (
      run_calls-Wrapped (state_of (run_call r call)).0 c (level c (call ∷ []) n) calls
        (run_call-Wrapped r c n call v (omega arith))
        (omega (arith, (level_first c call calls n).1)))
