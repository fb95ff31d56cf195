-- ===== src/Requests/Entries.antt =====
-- The entries of a command, its count and its method, behind the calls that wrap and unwrap commands.
use sql_handler.Requests.{
  Registry, Method, wrapper, MethodTable, MethodLaws, find_sql_handler, update_wrap_count, counted,
  discounted, add_sql_wrapper, remove_sql_wrapper,
}
use sql_handler.Cursor.{size_mod}
use sql_handler.Outcome.{Result, ok, err, done, state_of}
use sql_handler.Prelude.{
  ℕ, zero, suc, ◌+◌, ◌<◌, ◌≡◌, Bool, true, false, Option, none, some, Text, lookup, text_eq,
  text_eq_refl, TextMap, ◌∙◌, Option-cases, inl, inr, ◌==◌, if◌then◌else◌, arith,
}
use sql_handler.Requests.Counts.{
  counted_as, bump, shrink, lookup-bump, lookup-shrink, Keeps, update-Keeps,
}

-- A command keeps the method that it has; the wrapper is one for a command without.
abbrev pub or_wrapper : Option Method → Option Method
or_wrapper none = some wrapper
or_wrapper (some f) = some f

module _ {M W : Type 0} (t : MethodTable M) (laws : MethodLaws t) where
  pub add_wraps :
      (r : Registry M W) (c : Text) (n : ℕ)
      → lookup c r.plugins ≡ none
      → lookup c r.wrap_counts ≡ counted_as n
      → n + 1 < size_mod
      → add_sql_wrapper t r c
        ≡ done (
          record r {
            wrap_counts = bump c n r.wrap_counts;
            methods = t.add_method c wrapper r.methods;
          },
          true,
        )
  unfolding add_sql_wrapper find_sql_handler counted update_wrap_count
  add_wraps r c zero p e h = ground (arith, p, e)
  add_wraps r c (suc n) p e h = ground (arith, p, e)

  pub remove_unwraps :
      (r : Registry M W) (c : Text) (n : ℕ) {f : Method}
      → t.find_method c r.methods ≡ some f
      → lookup c r.wrap_counts ≡ some (suc n)
      → suc n < size_mod
      → remove_sql_wrapper t r c
        ≡ done (
          record r {
            wrap_counts = shrink c n r.wrap_counts;
            methods = if n == 0 then t.remove_method c r.methods else r.methods;
          },
          true,
        )
  unfolding remove_sql_wrapper discounted update_wrap_count
  remove_unwraps r c zero p e h = ground (arith, p, e)
  remove_unwraps r c (suc n) p e h = ground (arith, p, e)

  -- The command is no plugin, it is counted `n` times, and `m0` is its method.
  pub record Counted (c : Text) (n : ℕ) (m0 : Option Method) (r : Registry M W) : Type 0 where
    pub no_plugin : lookup c r.plugins ≡ none
    pub count : lookup c r.wrap_counts ≡ counted_as n
    pub method : t.find_method c r.methods ≡ m0

  pub wrap-Counted :
      (r : Registry M W) (c : Text) (n : ℕ) (m0 : Option Method)
      → Counted c n m0 r
      → n + 1 < size_mod
      → Counted c (n + 1) (or_wrapper m0) (state_of (add_sql_wrapper t r c)).0
  wrap-Counted r c n m0 v h = rw (add_wraps r c n v.no_plugin v.count h) (record {
    no_plugin = v.no_plugin;
    count = lookup-bump c n r.wrap_counts v.count;
    method = added m0 v.method;
  })
    where
      added :
          (m : Option Method)
          → t.find_method c r.methods ≡ m
          → t.find_method c (t.add_method c wrapper r.methods) ≡ or_wrapper m
      added none e = ground (arith, laws.find_added c c wrapper r.methods, text_eq_refl c, e)
      added (some f) e = ground (arith, laws.find_added c c wrapper r.methods, text_eq_refl c, e)

  pub unwrap-Counted :
      (r : Registry M W) (c : Text) (n : ℕ) (f : Method)
      → Counted c (suc n) (some f) r
      → suc n < size_mod
      → Counted c n (if n == 0 then none else some f) (state_of (remove_sql_wrapper t r c)).0
  unwrap-Counted r c n f v h = rw (remove_unwraps r c n v.method v.count h) (record {
    no_plugin = v.no_plugin;
    count = lookup-shrink c n r.wrap_counts;
    method = ground (arith, laws.find_removed c c r.methods, text_eq_refl c, v.method);
  })

  counted-Counted :
      (r : Registry M W) (c d : Text) (n : ℕ) (m0 : Option Method) (x : Result (TextMap ℕ × Bool))
      → text_eq d c ≡ false
      → Keeps c r.wrap_counts x
      → Counted c n m0 r
      → Counted c n m0 (state_of (counted t r d x)).0
  unfolding counted
  counted-Counted r c d n m0 (err e) ne k v = v
  counted-Counted r c d n m0 (ok (m, b)) ne k v = record {
    no_plugin = v.no_plugin;
    count = k ∙ v.count;
    method = ground (arith, laws.find_added d c wrapper r.methods, ne, v.method);
  }

  discounted-Counted :
      (r : Registry M W) (c d : Text) (n : ℕ) (m0 : Option Method) (x : Result (TextMap ℕ × Bool))
      → text_eq d c ≡ false
      → Keeps c r.wrap_counts x
      → Counted c n m0 r
      → Counted c n m0 (state_of (discounted t r d x)).0
  unfolding discounted
  discounted-Counted r c d n m0 (err e) ne k v = v
  discounted-Counted r c d n m0 (ok (m, b)) ne k v = record {
    no_plugin = v.no_plugin;
    count = k ∙ v.count;
    method = ground (arith, laws.find_removed d c r.methods, ne, v.method);
  }

  -- Calls for another command leave this one alone.
  pub other_wrap-Counted :
      (r : Registry M W) (c d : Text) (n : ℕ) (m0 : Option Method)
      → text_eq d c ≡ false
      → Counted c n m0 r
      → Counted c n m0 (state_of (add_sql_wrapper t r d)).0
  unfolding add_sql_wrapper find_sql_handler
  other_wrap-Counted r c d n m0 ne v = elim (Option-cases (lookup d r.plugins)) [
    | inl e ↦
        rw (add_sql_wrapper, find_sql_handler, e)
          (counted-Counted r c d n m0 _ ne (update-Keeps c d true r.wrap_counts ne) v)
    | inr (p, e) ↦ rw (add_sql_wrapper, find_sql_handler, e) v
  ]

  pub other_unwrap-Counted :
      (r : Registry M W) (c d : Text) (n : ℕ) (m0 : Option Method)
      → text_eq d c ≡ false
      → Counted c n m0 r
      → Counted c n m0 (state_of (remove_sql_wrapper t r d)).0
  unfolding remove_sql_wrapper
  other_unwrap-Counted r c d n m0 ne v = elim (Option-cases (t.find_method d r.methods)) [
    | inl e ↦ rw (remove_sql_wrapper, e) v
    | inr (p, e) ↦
        rw (remove_sql_wrapper, e)
          (discounted-Counted r c d n m0 _ ne (update-Keeps c d false r.wrap_counts ne) v)
  ]
