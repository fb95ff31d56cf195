-- ===== src/Actions/Lists.antt =====
-- action/SQLActionList.h, action/SQLStaticActionList.h and action/SQLObjectActionList.h: lists that an
-- iterator walks, and the inner loop of action/SQLActionManager.h over one.
pub mod Loop
pub mod Arrays
use sql_handler.Actions.{Action, ActionFactory, try_next}
use sql_handler.Cursor.{size_mod}
use sql_handler.Outcome.{Error, Result, ok, err, sql_internal_fatal, undefined, out_of_fuel}
use sql_handler.Prelude.{
  ℕ, zero, suc, ◌+◌, ◌%◌, Bool, true, false, ◌||◌, Option, none, some, List, [], ◌∷◌, ltb, ◌==◌,
  get_elem?, if◌then◌else◌,
}

-- `SQLActionList`: its virtual functions, over the lists of a class. A state of the list may be one
-- that the functions are not defined for.
pub record ListClass (L W Args Out : Type 0) : Type 0 where
  pub has_next : L → Result Bool
  pub do_next : Option Args → L → W → L × (W × Result (Option Out))
  pub get_size : L → ℕ
  pub reset : L → L

-- `SQLStaticActionList` and `SQLObjectActionList`: the actions that `_list` points to, `_size` and
-- `_iterator`; `allocated` says that `new` made the array.
pub record ArrayList (W Args Out : Type 0) : Type 0 where
  pub list : List (Action W Args Out)
  pub allocated : Bool
  pub size : ℕ
  pub iterator : ℕ

module _ {W Args Out : Type 0} where
  -- The constructors of the two classes from an array, which may be null, and its size.
  unfoldable pub new_array_list :
      Option (Bool × List (Action W Args Out)) → ℕ → Result (ArrayList W Args Out)
  new_array_list none size' = err sql_internal_fatal
  new_array_list (some (allocated', list')) size' =
      ok (record { list = list'; allocated = allocated'; size = size'; iterator = 0 })

  -- The constructor of `SQLStaticActionList` from one action, which may be null.
  unfoldable pub new_static_list : Option (Action W Args Out) → Result (ArrayList W Args Out)
  new_static_list none = err sql_internal_fatal
  new_static_list (some a) = ok (record { list = a ∷ []; allocated = true; size = 1; iterator = 0 })

  -- The constructor of `SQLObjectActionList` from one action, which it points to.
  unfoldable pub new_object_list : Action W Args Out → ArrayList W Args Out
  new_object_list a = record { list = a ∷ []; allocated = false; size = 1; iterator = 0 }

  -- `doNext`; behind the array the behaviour is undefined.
  unfoldable pub do_next_array :
      Option Args → ArrayList W Args Out → W → ArrayList W Args Out × (W × Result (Option Out))
  do_next_array args l w =
      let l' = record l { iterator = (l.iterator + 1) % size_mod } in
      elim (get_elem? l.list l.iterator) [
        | none ↦ (l', (w, err undefined))
        | some a ↦ (l', a args w)
      ]

  -- `hasNext`
  unfoldable pub has_next_array : ArrayList W Args Out → Result Bool
  has_next_array l = ok (ltb l.iterator l.size)

  -- `reset`
  unfoldable pub reset_array : ArrayList W Args Out → ArrayList W Args Out
  reset_array l = record l { iterator = 0 }

  abbrev pub array_class : ListClass (ArrayList W Args Out) W Args Out
  array_class = record {
    has_next = has_next_array;
    do_next = do_next_array;
    get_size = λ l. l.size;
    reset = reset_array;
  }

  -- `delete[] _list`
  unfoldable pub delete_list : ArrayList W Args Out → Result (Unit {0})
  delete_list l = if l.allocated then ok tt else err undefined

  -- The destructor of `SQLStaticActionList`.
  unfoldable pub drop_static_list : ArrayList W Args Out → Result (Unit {0})
  unfolding delete_list
  drop_static_list l = if l.size == 1 then delete_list l else ok tt

  -- The destructor of `SQLObjectActionList`.
  unfoldable pub drop_object_list : ArrayList W Args Out → Result (Unit {0})
  unfolding delete_list
  drop_object_list l = if ltb 1 l.size then delete_list l else ok tt

module _ {L W Code Args Out : Type 0} (af : ActionFactory W Code Args Out)
    (c : ListClass L W Args Out) (merge_f : Option Out → Option Out → Option Out)
    (multiple_args : Bool) where
  -- What follows `doNext` in a round of the inner loop; `again` is the next round.
  unfoldable pub after_next :
      (L → Option Out → W → L × (W × Option Out × Option Error))
      → Option Out
      → L × (W × Result (Option Out))
      → L × (W × Option Out × Option Error)
  unfolding try_next
  after_next again merged (l, (w, out)) = elim (try_next out) [
    | err e ↦ (l, (w, merged, some e))
    | ok o ↦ again l (merge_f merged o) w
  ]

  -- The inner loop of `doActions` over a list of a class, on fuel: the list, what was merged, and the
  -- exception that ended the loop.
  unfoldable pub run_list :
      ℕ → Code → Bool → Option Args → L → Option Out → W → L × (W × Option Out × Option Error)
  unfolding after_next
  run_list zero code first_time args l merged w = (l, (w, merged, some Error.out_of_fuel))
  run_list (suc n) code first_time args l merged w = elim (c.has_next l) [
    | err e ↦ (l, (w, merged, some e))
    | ok b ↦ elim b [
      | false ↦ (l, (w, merged, none))
      | true ↦
          let (w1, given) =
            if multiple_args || first_time then af.get_args code w else (w, ok args) in
          elim given [
            | err e ↦ (l, (w1, merged, some e))
            | ok args' ↦ after_next (run_list n code false args') merged (c.do_next args' l w1)
          ]
    ]
  ]
