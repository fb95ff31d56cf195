-- ===== src/Connections/Failures.antt =====
-- What leaves the actions on a connector: the classes of exceptions, and the connector closed.
use mathlib.Core.Path.{subst}
use sql_handler.Call.{Call}
use sql_handler.Connections.{
  Handler, close_and_throw, connect_failed, query_failed, next_failed, caught, connect, query,
  next_type,
}
use sql_handler.Outcome.{
  Error, Result, ok, err, internal, internal_fatal, syntax_user, sql_internal, sql_internal_fatal,
  out_of_range, undefined, terminated, out_of_fuel,
}
use sql_handler.Prelude.{
  ◌≡◌, ◌≢◌, ◌⊎◌, inl, inr, refl, sym, Bool, true, false, Option, if◌then◌else◌,
}

-- An exception that is thrown to the caller, not an error of the model.
abbrev pub IsException : Error → Type 0
IsException e = (e ≢ undefined) × (e ≢ terminated) × (e ≢ out_of_fuel)

module _ {W C B : Type 0} (h : Handler W C B) where
  -- The connector after `close()`.
  abbrev pub closed : W → W
  closed w = (h.close w).0

  -- `close()` throws nothing.
  abbrev pub Closes : Type 0
  Closes = (w : W) → (b : Bool) × ((h.close w).1 ≡ ok b)

  close_and_throw_lem :
      {A : Type 0} (e : Error) (w : W) → Closes → close_and_throw h {A = A} e w ≡ (closed w, err e)
  unfolding close_and_throw
  close_and_throw_lem {A} e w k = let (b, q) = k w in rw q refl

  -- The connector is closed, and the exception is one of `P`.
  abbrev pub ClosedBy : (Error → Type 0) → {A : Type 0} → W × Result A → Type 0
  ClosedBy P (w', ok a) = Unit
  ClosedBy P (w', err e) = IsException e → P e × ((w : W) × (w' ≡ closed w))

  thrown :
      (P : Error → Type 0) (A : Type 0) (e : Error) (w : W)
      → Closes
      → P e
      → ClosedBy P (close_and_throw h {A = A} e w)
  thrown P A e w k p = subst (ClosedBy P) (sym (close_and_throw_lem e w k)) λ exc. (p, (w, refl))

  -- The exception that all classes become, and the two of a query.
  abbrev pub IsFatal : Error → Type 0
  IsFatal e = e ≡ sql_internal_fatal

  abbrev pub IsOfQuery : Error → Type 0
  IsOfQuery e = (e ≡ sql_internal) ⊎ (e ≡ sql_internal_fatal)

  connect_failed-ClosedBy :
      (A : Type 0) (e : Error) (w : W) → Closes → ClosedBy IsFatal (connect_failed h {A = A} e w)
  unfolding connect_failed
  connect_failed-ClosedBy A Error.internal w k = thrown IsFatal A sql_internal_fatal w k refl
  connect_failed-ClosedBy A Error.internal_fatal w k = thrown IsFatal A sql_internal_fatal w k refl
  connect_failed-ClosedBy A Error.syntax_user w k = thrown IsFatal A sql_internal_fatal w k refl
  connect_failed-ClosedBy A Error.sql_internal w k = thrown IsFatal A sql_internal_fatal w k refl
  connect_failed-ClosedBy A Error.sql_internal_fatal w k =
      thrown IsFatal A sql_internal_fatal w k refl
  connect_failed-ClosedBy A Error.out_of_range w k = thrown IsFatal A sql_internal_fatal w k refl
  connect_failed-ClosedBy A Error.undefined w k = λ exc. absurd (exc.0 refl)
  connect_failed-ClosedBy A Error.terminated w k = λ exc. absurd (exc.1 refl)
  connect_failed-ClosedBy A Error.out_of_fuel w k = λ exc. absurd (exc.2 refl)

  next_failed-ClosedBy : (e : Error) (w : W) → Closes → ClosedBy IsFatal (next_failed h e w)
  unfolding next_failed
  next_failed-ClosedBy Error.internal w k = thrown IsFatal (Option B) sql_internal_fatal w k refl
  next_failed-ClosedBy Error.internal_fatal w k =
      thrown IsFatal (Option B) sql_internal_fatal w k refl
  next_failed-ClosedBy Error.syntax_user w k = thrown IsFatal (Option B) sql_internal_fatal w k refl
  next_failed-ClosedBy Error.sql_internal w k = tt
  next_failed-ClosedBy Error.sql_internal_fatal w k =
      thrown IsFatal (Option B) sql_internal_fatal w k refl
  next_failed-ClosedBy Error.out_of_range w k =
      thrown IsFatal (Option B) sql_internal_fatal w k refl
  next_failed-ClosedBy Error.undefined w k = λ exc. absurd (exc.0 refl)
  next_failed-ClosedBy Error.terminated w k = λ exc. absurd (exc.1 refl)
  next_failed-ClosedBy Error.out_of_fuel w k = λ exc. absurd (exc.2 refl)

  by_std :
      (A : Type 0) (b : Bool) (w : W)
      → Closes
      → b ≡ true
      → ClosedBy IsOfQuery (
          if b then close_and_throw h {A = A} sql_internal_fatal w else (w, err sql_internal_fatal))
  by_std A true w k e = thrown IsOfQuery A sql_internal_fatal w k (inr refl)
  by_std A false w k e = cc

  query_failed-ClosedBy :
      (A : Type 0) (e : Error) (w : W)
      → Closes
      → ((x : Error) → h.is_std x ≡ true)
      → ClosedBy IsOfQuery (query_failed h {A = A} e w)
  unfolding query_failed
  query_failed-ClosedBy A Error.internal w k s = by_std A (h.is_std internal) w k (s internal)
  query_failed-ClosedBy A Error.internal_fatal w k s =
      by_std A (h.is_std internal_fatal) w k (s internal_fatal)
  query_failed-ClosedBy A Error.syntax_user w k s =
      by_std A (h.is_std syntax_user) w k (s syntax_user)
  query_failed-ClosedBy A Error.sql_internal w k s = thrown IsOfQuery A sql_internal w k (inl refl)
  query_failed-ClosedBy A Error.sql_internal_fatal w k s =
      thrown IsOfQuery A sql_internal_fatal w k (inr refl)
  query_failed-ClosedBy A Error.out_of_range w k s =
      by_std A (h.is_std out_of_range) w k (s out_of_range)
  query_failed-ClosedBy A Error.undefined w k s = λ exc. absurd (exc.0 refl)
  query_failed-ClosedBy A Error.terminated w k s = λ exc. absurd (exc.1 refl)
  query_failed-ClosedBy A Error.out_of_fuel w k s = λ exc. absurd (exc.2 refl)

  caught-ClosedBy :
      (P : Error → Type 0) {A : Type 0} (f : Error → Call W A) (x : W × Result A)
      → ((e : Error) (w : W) → ClosedBy P (f e w))
      → ClosedBy P (caught h f x)
  caught-ClosedBy P f (w, ok a) k = tt
  caught-ClosedBy P f (w, err e) k = k e w

  pub closed_of :
      (P : Error → Type 0) {A : Type 0} (x : W × Result A) {w' : W} {e : Error}
      → ClosedBy P x
      → x ≡ (w', err e)
      → IsException e
      → P e × ((w : W) × (w' ≡ closed w))
  closed_of P x h q exc = subst (ClosedBy P) q h exc

  -- For a connector whose `close()` throws nothing: an exception that leaves the connect action is a
  -- `SQLInternalFatalError`, and the connector is closed.
  pub connect_closes :
      (container : C) (force : Bool) (w w' : W) (e : Error)
      → Closes
      → connect h container force w ≡ (w', err e)
      → IsException e
      → (e ≡ sql_internal_fatal) × ((v : W) × (w' ≡ closed v))
  unfolding connect
  connect_closes container force w w' e k q =
      closed_of IsFatal (connect h container force w)
        (caught-ClosedBy IsFatal (connect_failed h) _ λ x v. connect_failed-ClosedBy _ x v k) q

  -- For a connector whose `close()` throws nothing, where every exception derives from
  -- `std::exception`: an exception that leaves the query action is a `SQLInternalError` or a
  -- `SQLInternalFatalError`, and the connector is closed.
  pub query_closes :
      (force : Bool) (w w' : W) (e : Error)
      → Closes
      → ((x : Error) → h.is_std x ≡ true)
      → query h force w ≡ (w', err e)
      → IsException e
      → ((e ≡ sql_internal) ⊎ (e ≡ sql_internal_fatal)) × ((v : W) × (w' ≡ closed v))
  unfolding query
  query_closes force w w' e k s q =
      closed_of IsOfQuery (query h force w)
        (caught-ClosedBy IsOfQuery (query_failed h) _ λ x v. query_failed-ClosedBy _ x v k s) q

  -- For a connector whose `close()` throws nothing: an exception that leaves the action for the next
  -- value is a `SQLInternalFatalError`, and the connector is as `close()` leaves it.
  pub next_type_closes :
      (force : Bool) (w w' : W) (e : Error)
      → Closes
      → next_type h force w ≡ (w', err e)
      → IsException e
      → (e ≡ sql_internal_fatal) × ((v : W) × (w' ≡ closed v))
  unfolding next_type
  next_type_closes force w w' e k q =
      closed_of IsFatal (next_type h force w)
        (caught-ClosedBy IsFatal (next_failed h) _ λ x v. next_failed-ClosedBy x v k) q
