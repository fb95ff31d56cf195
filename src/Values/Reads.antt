-- ===== src/Values/Reads.antt =====
-- A variable that the type factory has made reads a value.
use sql_handler.Call.{Call, resume, ◌>>=◌, ◌>>◌, return, modify, check_that}
use sql_handler.Odbc.Calls.{get_next}
use sql_handler.Odbc.State.{Driver, Connector, Pointer, column_buffer}
use sql_handler.Odbc.Table.{text_at}
use sql_handler.Outcome.{Result, ok, err, internal_fatal}
use sql_handler.Prelude.{
  ℕ, suc, ◌≤◌, ◌≡◌, refl, ap, ◌∙◌, Bool, true, false, Option, none, some, Text, ◌==◌, if◌then◌else◌,
  arith,
}
use sql_handler.Values.{
  Heap, World, Address, in_buffers, in_heap, cast_func, cast_string, DapType, str, simple,
  simple_void, Variable, Dap, Reading, put_string, release, content, apply, set_val, free_value,
  run_cast, pointed_string, free_unless, cast, val2buf, read_value, debugged, read_variable,
  fatal_if_bes, set_value, set_read, next_pointer, put_val, set_heap, on_world,
}
use sql_handler.Values.Kinds.{Kind, text, buffer_of}

-- The documented behaviour of `val2buf` at a pointer that is not null: it takes what the pointer leads
-- to and throws nothing.
pub record Takes {V : Type 0} (lib : Dap V) : Type 0 where
  pub taken : DapType → Text → V → V
  pub val2buf_takes : (t : DapType) (s : Text) (v : V) → lib.val2buf t (some s) v ≡ ok (taken t s v)

-- A variable as the factory makes it, and as it stays between two rows: `last` is the pointer of the
-- value before, which only a variable that reads the buffer in place keeps.
pub record Column (V : Type 0) : Type 0 where
  pub name : Text
  pub kind : Kind
  pub col : ℕ
  pub send_p : Bool
  pub in_selection : Bool
  pub last : Option Address
  pub value : V

module _ {V : Type 0} where
  abbrev pub variable_for : Bool → Kind → Column V → Variable V
  variable_for done text c = record {
    name = c.name;
    form = simple;
    dap = str;
    col = c.col;
    action = record { cast = cast_string; val = none; reuse = false };
    reuse = false;
    read_p = done;
    send_p = c.send_p;
    in_selection = c.in_selection;
    value = c.value;
  }
  variable_for done (buffer_of t) c = record {
    name = c.name;
    form = simple_void;
    dap = t;
    col = c.col;
    action = record { cast = cast_func; val = c.last; reuse = true };
    reuse = true;
    read_p = done;
    send_p = c.send_p;
    in_selection = c.in_selection;
    value = c.value;
  }

  abbrev pub as_variable : Bool → Column V → Variable V
  as_variable done c = variable_for done c.kind c

-- Every address from the next one on is free.
abbrev pub IsFresh : Heap → Type 0
IsFresh h = (p : ℕ) → h.next ≤ p → h.string p ≡ none

-- The same strings are there.
abbrev pub SameStrings : Heap → Heap → Type 0
SameStrings h h' = (p : ℕ) → h'.string p ≡ h.string p

abbrev pub HeapKept : Heap → Heap → Type 0
HeapKept h h' = IsFresh h' × SameStrings h h'

same : (n : ℕ) → (n == n) ≡ true
same n = ground arith

-- A string that is made and given back.
abbrev pub passed : Heap → Text → Heap
passed h s = record (put_string (put_string h h.next (some s)) h.next none) { next = suc h.next }

passed-HeapKept : (h : Heap) (s : Text) → IsFresh h → HeapKept h (passed h s)
passed-HeapKept h s f = (λ p l. ground (arith, f p), λ p. ground (arith, f p))

module _ {W V : Type 0} where
  set_val-reuse :
      (a : Option Address) (r : Reading W V)
      → r.variable.action.reuse ≡ true
      → set_val a r ≡ (put_val a r, ok tt)
  unfolding set_val
  set_val-reuse a r h = go r.variable.action.val
    where
      go :
          (m : Option Address)
          → (elim m as (λ y. Reading W V × Result (Unit {0})) [
            | none ↦ (put_val a r, ok tt)
            | some old ↦
                if r.variable.action.reuse
                then (put_val a r, ok tt)
                else (do on_world (release old); modify (put_val a)) r
          ])
            ≡ (put_val a r, ok tt)
      go none = refl
      go (some old) =
          ap
            (λ b.
              if b then (put_val a r, ok tt) else (do on_world (release old); modify (put_val a)) r)
            h

  pointed_string-there :
      (p : ℕ) (s : Text) (r : Reading W V)
      → r.world.heap.string p ≡ some s
      → pointed_string (some (in_heap p)) r ≡ (r, ok s)
  unfolding pointed_string content
  pointed_string-there p s r e = ground (arith, e)

module _ {W : Type 0} where
  release-there :
      (p : ℕ) (s : Text) (w : World W)
      → w.heap.string p ≡ some s
      → release (in_heap p) w ≡ (set_heap (put_string w.heap p none) w, ok tt)
  unfolding release
  release-there p s w e = ground (arith, e)

module _ {W V : Type 0} (d : Driver W) (lib : Dap V) (v : Takes lib) where
  -- What libdap keeps of a text.
  abbrev pub stored : Kind → Text → V → V
  stored text s w = lib.set_value s w
  stored (buffer_of t) s w = v.taken t s w

  -- The column with a value that was read from the buffer of column `i`.
  abbrev pub with_value : ℕ → V → Column V → Column V
  with_value i w c = record c { last = some (in_buffers (column_buffer i)); value = w }

  abbrev pub fill : ℕ → Text → Column V → Column V
  fill i s c = with_value i (stored c.kind s c.value) c

  -- What a read leaves: the value, and the strings that were there.
  abbrev pub ReadOff : Connector W → Heap → Variable V → Reading W V × Result Bool → Type 0
  ReadOff o h x r =
      (h' : Heap) × (r
        ≡ (record { world = record { connector = o; heap = h' }; variable = x }, ok false))
      × HeapKept h h'

  abbrev pub reading : Connector W → Heap → Variable V → Reading W V
  reading o h x = record { world = record { connector = o; heap = h }; variable = x }

  -- With a value in the cast action.
  abbrev holding : Option Address → Variable V → Variable V
  holding a x = record x { action = record x.action { val = a } }

  -- What stands behind the cast.
  abbrev text_rest : Option Address → Call (Reading W V) (Unit {0})
  text_rest a = do s ← pointed_string a; modify (set_value d lib s); free_unless false

  abbrev buffer_rest : Option Address → Call (Reading W V) (Unit {0})
  buffer_rest a = do val2buf d lib a; free_unless true; modify set_read

  abbrev finished : Reading W V × Result (Unit {0}) → Reading W V × Result Bool
  finished y = fatal_if_bes d lib (resume y λ u. return false)

  module _ (o o' : Connector W) (i : ℕ) (s : Text) (h : Heap) (fresh : IsFresh h)
      (ready : o.ready ≡ true) (next : get_next d 1 o ≡ (o', ok (column_buffer i)))
      (value : text_at o'.contents i ≡ s) where
    cast_next :
        (x : Variable V) → cast d lib (reading o h x) ≡ run_cast (column_buffer i) (reading o' h x)
    unfolding cast
    cast_next x =
        ap
          (λ b.
            resume (check_that b internal_fatal (reading o h x))
              λ u. next_pointer d lib >>= run_cast)
          ready
        ∙ ap (λ (y : Connector W × Result Pointer). resume (reading y.0 h x, y.1) run_cast) next

    -- The string, and what is read of it.
    cast_text :
        (c : Column V)
        → run_cast (column_buffer i) (reading o' h (variable_for false text c)) ≡ (
          reading o'
              (record (put_string h h.next (some s)) { next = suc h.next })
              (holding (some (in_heap h.next)) (variable_for false text c)),
          ok (some (in_heap h.next)),
        )
    unfolding run_cast apply set_val
    cast_text c =
        ap
          (λ u. (
            reading o' (record (put_string h h.next (some u)) { next = suc h.next })
                (holding (some (in_heap h.next)) (variable_for false text c)),
            ok (some (in_heap h.next)),
          ))
          value

    rest_text :
        (c : Column V)
        → finished (
            text_rest (some (in_heap h.next)) (
              reading o'
                (record (put_string h h.next (some s)) { next = suc h.next })
                (holding (some (in_heap h.next)) (variable_for false text c))))
          ≡ (
            reading o'
                (passed h s)
                (variable_for true text (with_value i (lib.set_value s c.value) c)),
            ok false,
          )
    unfolding pointed_string content free_unless free_value release
    rest_text c =
        let there : (put_string h h.next (some s)).string h.next ≡ some s = ground arith in
        let made = record (put_string h h.next (some s)) { next = suc h.next } in
        ap
          (λ (y : Reading W V × Result Text).
            finished (resume y λ u. do modify (set_value d lib u); free_unless false))
          (pointed_string-there h.next s
            (reading o' made (holding (some (in_heap h.next)) (variable_for false text c))) there)
        ∙ ap
            (λ (y : World W × Result (Unit {0})). finished (
              resume
                (
                  record {
                    world = y.0;
                    variable =
                        holding (some (in_heap h.next))
                          (variable_for true text (with_value i (lib.set_value s c.value) c));
                  },
                  y.1,
                )
                λ u. modify (put_val none)))
            (release-there h.next s (record { connector = o'; heap = made }) there)

    -- The pointer, and what is read through it.
    cast_buffer :
        (t : DapType) (c : Column V)
        → run_cast (column_buffer i) (reading o' h (variable_for false (buffer_of t) c)) ≡ (
          reading o' h
              (holding (some (in_buffers (column_buffer i))) (variable_for false (buffer_of t) c)),
          ok (some (in_buffers (column_buffer i))),
        )
    unfolding run_cast apply
    cast_buffer t c =
        ap
          (λ (y : Reading W V × Result (Unit {0})).
            resume y λ u. return (some (in_buffers (column_buffer i))))
          (set_val-reuse (some (in_buffers (column_buffer i)))
            (reading o' h (variable_for false (buffer_of t) c)) refl)

    val2buf-taken :
        (x : Variable V)
        → val2buf d lib (some (in_buffers (column_buffer i))) (reading o' h x)
          ≡ (reading o' h (record x { value = v.taken x.dap s x.value }), ok tt)
    unfolding val2buf content
    val2buf-taken x =
        ap
          (λ (y : Result V). elim y as (λ z. Reading W V × Result (Unit {0})) [
            | err e ↦ (reading o' h x, err e)
            | ok w ↦ (reading o' h (record x { value = w }), ok tt)
          ])
          (ap (λ (u : Text). lib.val2buf x.dap (some u) x.value) value
            ∙ v.val2buf_takes x.dap s x.value)

    rest_buffer :
        (t : DapType) (c : Column V)
        → finished (
            buffer_rest (some (in_buffers (column_buffer i))) (
              reading o' h (
                holding
                  (some (in_buffers (column_buffer i)))
                  (variable_for false (buffer_of t) c))))
          ≡ (
            reading o' h (variable_for true (buffer_of t) (with_value i (v.taken t s c.value) c)),
            ok false,
          )
    unfolding free_unless
    rest_buffer t c =
        ap
          (λ (y : Reading W V × Result (Unit {0})).
            finished (resume y λ u. do free_unless true; modify set_read))
          (val2buf-taken
            (holding (some (in_buffers (column_buffer i))) (variable_for false (buffer_of t) c)))

    -- A read of a column.
    pub read-variable_for :
        (k : Kind) (c : Column V)
        → ReadOff o' h
            (variable_for true k (with_value i (stored k s c.value) c))
            (read_variable d lib false (reading o h (variable_for false k c)))
    unfolding read_variable debugged read_value
    read-variable_for text c = (
      passed h s,
      ap (λ (y : Reading W V × Result (Option Address)). finished (resume y text_rest))
            (cast_next (variable_for false text c) ∙ cast_text c)
          ∙ rest_text c,
      passed-HeapKept h s fresh,
    )
    read-variable_for (buffer_of t) c = (
      h,
      ap (λ (y : Reading W V × Result (Option Address)). finished (resume y buffer_rest))
            (cast_next (variable_for false (buffer_of t) c) ∙ cast_buffer t c)
          ∙ rest_buffer t c,
      (fresh, λ p. refl),
    )
