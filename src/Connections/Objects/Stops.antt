-- ===== src/Connections/Objects/Stops.antt =====
-- Which of the objects can end the program by an exception that `action` may not throw.
use mathlib.Core.Path.{subst}
use sql_handler.Call.{Call}
use sql_handler.Connections.Failures.{
  IsException, Closes, connect_closes, query_closes, next_type_closes,
}
use sql_handler.Connections.Objects.{
  ActionObject, connect_object, query_object, close_object, stopped, specified, run_object,
  object_action, next_action,
}
use sql_handler.Connections.{Handler, close_failed, caught, query, close, next_type}
use sql_handler.Outcome.{
  Error, Result, ok, err, internal, internal_fatal, syntax_user, sql_internal, sql_internal_fatal,
  out_of_range, terminated,
}
use sql_handler.Prelude.{◌≡◌, ◌≢◌, ◌↔◌, ◌⊎◌, inl, inr, refl, ap, ◌∙◌, Bool, true}

-- Nothing or a fatal error leaves.
abbrev FatalOnly : {W A : Type 0} → W × Result A → Type 0
FatalOnly (w, ok a) = Unit
FatalOnly (w, err e) = IsException e → e ≡ sql_internal_fatal

-- The program has ended before, or there is an exception that the specification stops: none of the
-- model's errors, and not the class that it lets through.
specified-stopped :
    {W A : Type 0} (x : W × Result A) {w : W}
    → specified x ≡ (w, stopped)
    → ((e : Error) × (x ≡ (w, err e)) × IsException e × (e ≢ sql_internal_fatal))
      ⊎ (x ≡ (w, err terminated))
unfolding specified
specified-stopped (v, ok a) q = absurd (cc q)
specified-stopped (v, err Error.sql_internal_fatal) q = absurd (cc q)
specified-stopped (v, err Error.undefined) q = absurd (cc q)
specified-stopped (v, err Error.terminated) q = inr (cc q)
specified-stopped (v, err Error.out_of_fuel) q = absurd (cc q)
specified-stopped (v, err Error.internal) q =
    inl (internal, cc q, ((λ h. cc h), (λ h. cc h), λ h. cc h), λ h. cc h)
specified-stopped (v, err Error.internal_fatal) q =
    inl (internal_fatal, cc q, ((λ h. cc h), (λ h. cc h), λ h. cc h), λ h. cc h)
specified-stopped (v, err Error.syntax_user) q =
    inl (syntax_user, cc q, ((λ h. cc h), (λ h. cc h), λ h. cc h), λ h. cc h)
specified-stopped (v, err Error.sql_internal) q =
    inl (sql_internal, cc q, ((λ h. cc h), (λ h. cc h), λ h. cc h), λ h. cc h)
specified-stopped (v, err Error.out_of_range) q =
    inl (out_of_range, cc q, ((λ h. cc h), (λ h. cc h), λ h. cc h), λ h. cc h)

specified-FatalOnly :
    {W A : Type 0} (x : W × Result A) {w : W}
    → ((w' : W) (e : Error) → x ≡ (w', err e) → IsException e → e ≡ sql_internal_fatal)
    → specified x ≡ (w, stopped)
    → x ≡ (w, err terminated)
specified-FatalOnly x {w} k q = elim (specified-stopped x q) [
  | inl (e, qe, exc, other) ↦ absurd (other (k w e qe exc))
  | inr ended ↦ ended
]

specified-terminated :
    {W A : Type 0} (x : W × Result A) {w : W} → x ≡ (w, err terminated) → specified x ≡ (w, stopped)
unfolding specified
specified-terminated x q = rw q refl

module _ {W C B : Type 0} (h : Handler W C B) where
  close_failed-FatalOnly : (A : Type 0) (e : Error) (w : W) → FatalOnly (close_failed h {A = A} e w)
  unfolding close_failed
  close_failed-FatalOnly A Error.internal w = λ exc. refl
  close_failed-FatalOnly A Error.internal_fatal w = λ exc. refl
  close_failed-FatalOnly A Error.syntax_user w = λ exc. refl
  close_failed-FatalOnly A Error.sql_internal w = λ exc. refl
  close_failed-FatalOnly A Error.sql_internal_fatal w = λ exc. refl
  close_failed-FatalOnly A Error.out_of_range w = λ exc. refl
  close_failed-FatalOnly A Error.undefined w = λ exc. absurd (exc.0 refl)
  close_failed-FatalOnly A Error.terminated w = λ exc. absurd (exc.1 refl)
  close_failed-FatalOnly A Error.out_of_fuel w = λ exc. absurd (exc.2 refl)

  caught-FatalOnly :
      {A : Type 0} (f : Error → Call W A) (x : W × Result A)
      → ((e : Error) (w : W) → FatalOnly (f e w))
      → FatalOnly (caught h f x)
  caught-FatalOnly f (w, ok a) k = tt
  caught-FatalOnly f (w, err e) k = k e w

  close-FatalOnly :
      (force : Bool) (w w' : W) (e : Error)
      → close h force w ≡ (w', err e)
      → IsException e
      → e ≡ sql_internal_fatal
  unfolding close
  close-FatalOnly force w w' e q exc =
      subst FatalOnly q (caught-FatalOnly (close_failed h) _ λ x v. close_failed-FatalOnly _ x v)
        exc

  object-stops :
      (o : ActionObject C) (w w' : W)
      → Closes h
      → ((x : Error) → h.is_std x ≡ true)
      → object_action h o w ≡ (w', stopped)
      → ((force : Bool) × (o ≡ query_object force) × (query h force w ≡ (w', err sql_internal)))
        ⊎ (run_object h o w ≡ (w', err terminated))
  unfolding object_action run_object
  object-stops (connect_object container force) w w' k s q =
      inr (
        specified-FatalOnly _ (λ v e qe exc. (connect_closes h container force w v e k qe exc).0) q)
  object-stops (close_object force) w w' k s q =
      inr (specified-FatalOnly _ (λ v e qe exc. close-FatalOnly force w v e qe exc) q)
  object-stops (query_object force) w w' k s q = elim (specified-stopped (query h force w) q) [
    | inr ended ↦ inr ended
    | inl (e, qe, exc, other) ↦ elim (query_closes h force w w' e k s qe exc).0 [
      | inl a ↦ inl (force, refl, qe ∙ ap (λ x. (w', err x)) a)
      | inr b ↦ absurd (other b)
    ]
  ]

  stops-object :
      (o : ActionObject C) (w w' : W)
      → ((force : Bool) × (o ≡ query_object force) × (query h force w ≡ (w', err sql_internal)))
        ⊎ (run_object h o w ≡ (w', err terminated))
      → object_action h o w ≡ (w', stopped)
  unfolding object_action run_object specified
  stops-object o w w' (inl (force, qo, qw)) = rw qo (rw qw refl)
  stops-object o w w' (inr ended) = specified-terminated _ ended

  -- For a connector whose `close()` throws nothing, where every exception derives from
  -- `std::exception`: `action` of an object of the connect, query or close action ends the program
  -- where the object is one for queries and its query throws `SQLInternalError`, where what it runs
  -- ends the program itself, and only there; and `action` of the next-value action ends it only
  -- where `nextType` does.
  pub object_action-stops :
      (w w' : W)
      → Closes h
      → ((x : Error) → h.is_std x ≡ true)
      → ((o : ActionObject C)
          → (object_action h o w ≡ (w', stopped)) ↔ (
              ((force : Bool) × (o ≡ query_object force)
                × (query h force w ≡ (w', err sql_internal)))
              ⊎ (run_object h o w ≡ (w', err terminated))))
        × ((force : Bool)
            → (next_action h force w ≡ (w', stopped))
              ↔ (next_type h force w ≡ (w', err terminated)))
  unfolding next_action
  object_action-stops w w' k s = (
    (λ o. (object-stops o w w' k s, stops-object o w w')),
    λ force. (
      specified-FatalOnly _ λ v e qe exc. (next_type_closes h force w v e k qe exc).0,
      specified-terminated _,
    ),
  )
