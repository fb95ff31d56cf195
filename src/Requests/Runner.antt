-- ===== src/Requests/Runner.antt =====
-- The runner against the order in which it is to try the sections.
use sql_handler.Requests.{
  Registry, Plugin, Handler, returned, sql_name, find_handler, find_sql_handler, find_sql_plugin,
  call_handler, serve, run_sections, last_chance_runner,
}
use sql_handler.Dataset.Parts.{Section}
use sql_handler.Outcome.{Result, ok, err, internal}
use sql_handler.Prelude.{
  ℕ, zero, suc, ◌+◌, ◌≤◌, ◌≡◌, refl, Bool, true, false, none, some, List, [], ◌∷◌, ◌++◌, Text,
  lookup, Option-cases, inl, inr, text_eq, is_empty, length, All, if◌then◌else◌, arith,
}

module _ {M W : Type 0} (r : Registry M W) (command : Text) where
  -- One section after the other: a section without a plugin, of the module's own name, without a
  -- handler for the command, or whose handler fails, is passed over.
  unfoldable pub first_success : List Section → W → Result Bool × List Section × W
  first_success [] w = (err internal, [], w)
  first_success (s ∷ rest) w =
      if is_empty s.api
      then (err internal, s ∷ rest, w)
      else if text_eq s.api sql_name
      then first_success rest w
      else elim (lookup s.api r.plugins) [
        | none ↦ first_success rest w
        | some p ↦
            let (w', res) = call_handler r command p (s ∷ rest) w in
            if res then (ok true, rest, w') else first_success rest w'
      ]

  serve_first :
      (n : ℕ) (sections : List Section) (w : W)
      → length sections ≤ n
      → ((rest : List Section) (w' : W)
          → length rest + 1 ≤ length sections
          → run_sections r command n rest w' ≡ first_success rest w')
      → serve r command (run_sections r command n) (find_sql_plugin r sections) w
        ≡ first_success sections w
  unfolding find_sql_plugin first_success serve find_sql_handler
  serve_first n [] w h k = refl
  serve_first n (s ∷ rest) w h k =
      let later : serve r command (run_sections r command n) (find_sql_plugin r rest) w
          ≡ first_success rest w =
        serve_first n rest w (omega arith) λ rest' w' l. k rest' w' (omega arith) in
      elim (Option-cases (lookup s.api r.plugins)) [
        | inl e ↦ ground (arith, e, later)
        | inr (p, e) ↦
            ground (arith, e, later, k rest (call_handler r command p (s ∷ rest) w).0 (omega arith))
      ]

  run_sections-eq :
      (n : ℕ) (sections : List Section) (w : W)
      → length sections + 1 ≤ n
      → run_sections r command n sections w ≡ first_success sections w
  unfolding run_sections first_success
  run_sections-eq zero sections w h = absurd (omega (arith, h))
  run_sections-eq (suc n) [] w h = refl
  run_sections-eq (suc n) (s ∷ rest) w h =
      serve_first n (s ∷ rest) w (omega arith)
        λ rest' w' l. run_sections-eq n rest' w' (omega arith)

  -- The runner, its fuel included, is the search that tries one section after the other: it passes
  -- over a section without a plugin, of the module's own name, without a handler for the command, or
  -- whose handler fails, and throws at one without an interface and behind the last.
  pub last_chance_runner-eq :
      (sections : List Section) (w : W)
      → last_chance_runner r command sections w ≡ first_success sections w
  unfolding last_chance_runner
  last_chance_runner-eq sections w = run_sections-eq (length sections + 1) sections w (omega arith)

  passed_over :
      (before : List Section) (s : Section) (after : List Section) (w : W)
      → All (λ b. is_empty b.api ≡ false) before
      → ((w' : W) → (first_success (s ∷ after) w').0 ≡ ok true)
      → (first_success (before ++ s ∷ after) w).0 ≡ ok true
  unfolding first_success
  passed_over [] s after w v h = h w
  passed_over (b ∷ before) s after w v h = elim (Option-cases (lookup b.api r.plugins)) [
    | inl e ↦ ground (arith, e, v.0, passed_over before s after w v.1 h)
    | inr (p, e) ↦ ground (
      arith,
      e,
      v.0,
      passed_over before s after w v.1 h,
      passed_over before s after (call_handler r command p (b ∷ before ++ s ∷ after) w).0 v.1 h,
    )
  ]

  -- Let a section have an interface for which a plugin is registered, whose handler of the command
  -- returns true whatever the sections before it did; and let no section before it lack an
  -- interface. Then the runner returns true, whether the handlers of the sections before it are
  -- missing, return false, or throw.
  pub last_chance_runner-serves :
      (before : List Section) (s : Section) (after : List Section) (p : Plugin W) (f : Handler W)
      (w : W)
      → All (λ b. is_empty b.api ≡ false) before
      → is_empty s.api ≡ false
      → text_eq s.api sql_name ≡ false
      → find_sql_handler r s.api ≡ some p
      → find_handler p command ≡ some f
      → ((w : W) → (f (s ∷ after) w).1 ≡ returned true)
      → (last_chance_runner r command (before ++ s ∷ after) w).0 ≡ ok true
  unfolding first_success find_sql_handler call_handler
  last_chance_runner-serves before s after p f w v a b c d e =
      rw (last_chance_runner-eq (before ++ s ∷ after) w)
        (passed_over before s after w v λ w'. ground (arith, e w'))
