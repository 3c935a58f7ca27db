-- ===== src/ProductStore/Closing.antt =====
-- ProductStore.add_close_callback and close of product_store.py. A callback is its name; `ran` are those
-- that have been called, in their order.
use cyrene_yield.Common.{
  String, ◌≡◌, ◌≢◌, refl, subst, ap, ◌∙◌, sym, Bool, true, false, List, [], ◌∷◌, ◌++◌, Result, ok,
  err, Bool-cases, inl, inr, if◌then◌else◌,
}
use mathlib.Core.List.{append-nil, append_assoc}

pub record Closing : Type 0 where
  pub closed : Bool
  pub callbacks : List String
  pub ran : List String
  pub connected : Bool

abbrev pub opened : Closing
opened = record { closed = false; callbacks = []; ran = []; connected = true }

-- How the call of a callback ends: it returns, or raises an Exception, or an exception of another kind.
pub data CallEnd : Type 0 where
  returned : CallEnd
  raised aborted : String → CallEnd

-- What a callback does when it is called after the store is closed: the callbacks that are called in
-- its call, which are those that it registers and those that these register, and how the call ends.
pub record Answer : Type 0 where
  pub calls : List String
  pub outcome : CallEnd

module _ (answer : String → Answer) where
  abbrev call : Closing → String → Closing
  call s callback = record s { ran = s.ran ++ callback ∷ (answer callback).calls }

  -- add_close_callback, and how the call of the callback ended if it was called
  unfoldable pub add_close_callback : Closing → String → Closing × CallEnd
  add_close_callback s callback =
      if s.closed
      then (call s callback, (answer callback).outcome)
      else (record s { callbacks = s.callbacks ++ callback ∷ [] }, returned)

  -- The loop over the callbacks: the errors that it collects, or the exception that ends it.
  unfoldable pub call_all :
      List String → Closing → List String → Closing × Result String (List String)
  call_all [] s errors = (s, ok errors)
  call_all (c ∷ cs) s errors = elim (answer c).outcome [
    | returned ↦ call_all cs (call s c) errors
    | raised e ↦ call_all cs (call s c) (errors ++ e ∷ [])
    | aborted e ↦ (call s c, err e)
  ]

  -- The end of close: the connection is closed, and the errors are raised as a group if there are any.
  abbrev disconnect : Closing × Result String (List String) → Closing × Result String (List String)
  disconnect (s, ok errors) = (record s { connected = false }, ok errors)
  disconnect (s, err e) = (s, err e)

  -- close: the state, and the errors of the group that it raises or the exception that ended it
  unfoldable pub close : Closing → Closing × Result String (List String)
  unfolding call_all
  close s =
      if s.closed
      then (s, ok [])
      else disconnect (call_all s.callbacks (record s { closed = true; callbacks = [] }) [])

  pub data Call : Type 0 where
    add : String → Call
    close_now : Call

  unfoldable pub run_calls : List Call → Closing → Closing
  unfolding add_close_callback close
  run_calls [] s = s
  run_calls (add c ∷ calls) s = run_calls calls (add_close_callback s c).0
  run_calls (close_now ∷ calls) s = run_calls calls (close s).0

  -- What is called for these callbacks, each once and in order.
  abbrev pub called : List String → List String
  called [] = []
  called (c ∷ cs) = (c ∷ (answer c).calls) ++ called cs

  called-append : (xs ys : List String) → called (xs ++ ys) ≡ called xs ++ called ys
  called-append [] ys = refl
  called-append (x ∷ xs) ys =
      ap (λ z. (x ∷ (answer x).calls) ++ z) (called-append xs ys)
      ∙ sym (append_assoc (x ∷ (answer x).calls) (called xs) (called ys))

  -- The callbacks that the calls register, in their order.
  unfoldable pub registered : List Call → List String
  registered [] = []
  registered (add c ∷ calls) = c ∷ registered calls
  registered (close_now ∷ calls) = registered calls

  -- The exceptions of the callbacks that fail, in their order.
  unfoldable pub failures : List String → List String
  failures [] = []
  failures (c ∷ cs) = elim (answer c).outcome [
    | returned ↦ failures cs
    | raised e ↦ e ∷ failures cs
    | aborted e ↦ []
  ]

  -- A store after these callbacks were registered.
  pub record ClosingInv (s : Closing) (names : List String) : Type 0 where
    pub whole : s.ran ++ called s.callbacks ≡ called names
    pub drained : s.closed ≡ true → s.callbacks ≡ []
    pub connection : s.closed ≡ true → s.connected ≡ false
    pub waiting : s.closed ≡ false → s.callbacks ≡ names

  add-kept :
      (s : Closing) (c : String) (names : List String)
      → ClosingInv s names
      → ClosingInv (add_close_callback s c).0 (names ++ c ∷ [])
  unfolding add_close_callback
  add-kept s c names inv = elim (Bool-cases s.closed) [
    | inl t ↦
        let e = inv.drained t in
        let before : s.ran ≡ called names =
          sym (append-nil s.ran) ∙ ap (λ z. s.ran ++ called z) (sym e) ∙ inv.whole in
        rw (t, add_close_callback)
          (record {
            whole = rw e (
                append-nil (s.ran ++ c ∷ (answer c).calls)
                ∙ ap (λ z. z ++ c ∷ (answer c).calls) before
                ∙ ap (λ z. called names ++ z) (sym (append-nil (c ∷ (answer c).calls)))
                ∙ sym (called-append names (c ∷ [])));
            drained = λ x. e;
            connection = λ x. inv.connection t;
            waiting = λ x. cc (t, x);
          })
    | inr f ↦
        rw (f, add_close_callback)
          (record {
            whole =
                ap (λ z. s.ran ++ z) (called-append s.callbacks (c ∷ []))
                ∙ sym (append_assoc s.ran (called s.callbacks) (called (c ∷ [])))
                ∙ ap (λ z. z ++ called (c ∷ [])) inv.whole
                ∙ sym (called-append names (c ∷ []));
            drained = λ x. cc (f, x);
            connection = λ x. cc (f, x);
            waiting = λ x. ap (λ z. z ++ c ∷ []) (inv.waiting f);
          })
  ]

  module _ (no_abort : (c e : String) → (answer c).outcome ≢ aborted e) where
    call_all-called :
        (cs : List String) (s : Closing) (errors : List String)
        → call_all cs s errors ≡ (record s { ran = s.ran ++ called cs }, ok (errors ++ failures cs))
    unfolding call_all failures
    call_all-called [] s errors =
        ap (λ z. (record s { ran = z }, ok errors)) (sym (append-nil s.ran))
        ∙ ap (λ z. (record s { ran = s.ran ++ [] }, ok z)) (sym (append-nil errors))
    call_all-called (c ∷ cs) s errors =
        by_outcome (λ es. call_all-called cs (call s c) es) (answer c).outcome refl
      where
        assoc :
            (s.ran ++ (c ∷ (answer c).calls)) ++ called cs
            ≡ s.ran ++ ((c ∷ (answer c).calls) ++ called cs)
        assoc = (append_assoc s.ran (c ∷ (answer c).calls) (called cs))

        by_outcome :
            ((es : List String)
              → call_all cs (call s c) es
                ≡ (record s { ran = (call s c).ran ++ called cs }, ok (es ++ failures cs)))
            → (o : CallEnd) → (answer c).outcome ≡ o
            → call_all (c ∷ cs) s errors
              ≡ (record s { ran = s.ran ++ called (c ∷ cs) }, ok (errors ++ failures (c ∷ cs)))
        by_outcome rest returned e =
            rw (e, call_all, failures)
              (rest errors ∙ ap (λ z. (record s { ran = z }, ok (errors ++ failures cs))) assoc)
        by_outcome rest (raised x) e =
            rw (e, call_all, failures)
              (rest (errors ++ x ∷ [])
                ∙ ap (λ z. (record s { ran = z }, ok ((errors ++ x ∷ []) ++ failures cs))) assoc
                ∙ ap (λ z. (record s { ran = s.ran ++ called (c ∷ cs) }, ok z))
                    (append_assoc errors (x ∷ []) (failures cs)))
        by_outcome rest (aborted x) e = elim (no_abort c x e) [ ]

    closes :
        (s : Closing)
        → s.closed ≡ false
        → close s ≡ (
          record {
            closed = true;
            callbacks = [];
            ran = s.ran ++ called s.callbacks;
            connected = false;
          },
          ok (failures s.callbacks),
        )
    unfolding close
    closes s f =
        rw (f, close)
          (ap disconnect
            (call_all-called s.callbacks (record s { closed = true; callbacks = [] }) []))

    close-kept :
        (s : Closing) (names : List String) → ClosingInv s names → ClosingInv (close s).0 names
    unfolding close
    close-kept s names inv = elim (Bool-cases s.closed) [
      | inl t ↦ subst (λ z. ClosingInv z names) (sym (left_open t)) inv
      | inr f ↦
          subst (λ z. ClosingInv z.0 names) (sym (closes s f))
            (record {
              whole = append-nil (s.ran ++ called s.callbacks) ∙ inv.whole;
              drained = λ x. refl;
              connection = λ x. refl;
              waiting = λ x. cc x;
            })
    ]
      where
        left_open : s.closed ≡ true → (close s).0 ≡ s
        left_open t = by_cases s.closed t
          where
            by_cases :
                (b : Bool)
                → b ≡ true
                → (if b
                    then (s, ok [])
                    else disconnect
                        (call_all s.callbacks (record s { closed = true; callbacks = [] }) [])).0
                  ≡ s
            by_cases true e = refl
            by_cases false e = cc e

    calls-kept :
        (calls : List Call) (s : Closing) (names : List String)
        → ClosingInv s names
        → ClosingInv (run_calls calls s) (names ++ registered calls)
    unfolding run_calls registered
    calls-kept [] s names inv = subst (λ z. ClosingInv s z) (sym (append-nil names)) inv
    calls-kept (add c ∷ calls) s names inv =
        subst (λ z. ClosingInv (run_calls calls (add_close_callback s c).0) z)
          (append_assoc names (c ∷ []) (registered calls))
          (calls-kept calls (add_close_callback s c).0 (names ++ c ∷ []) (add-kept s c names inv))
    calls-kept (close_now ∷ calls) s names inv =
        calls-kept calls (close s).0 names (close-kept s names inv)

    -- If no callback raises anything but an Exception: whatever is registered and however often the
    -- store is closed, whichever callbacks raise, what has been called and what the waiting
    -- callbacks call is what those registered call, each once and in order; a store that is closed
    -- has called them all and has closed its connection; and the close of a store that is open
    -- raises the exceptions of all the callbacks that fail, in their order.
    pub run_calls_once :
        (calls : List Call)
        → ((run_calls calls opened).ran ++ called (run_calls calls opened).callbacks
            ≡ called (registered calls))
          × ((run_calls calls opened).closed ≡ true
              → ((run_calls calls opened).ran ≡ called (registered calls))
                × ((run_calls calls opened).connected ≡ false))
          × ((run_calls calls opened).closed ≡ false
              → (close (run_calls calls opened)).1 ≡ ok (failures (registered calls)))
    run_calls_once calls =
        let inv = calls-kept calls opened [] (record {
          whole = refl;
          drained = λ x. refl;
          connection = λ x. cc x;
          waiting = λ x. refl;
        }) in
        (
          inv.whole,
          λ t. (
            sym (append-nil (run_calls calls opened).ran)
                ∙ ap (λ z. (run_calls calls opened).ran ++ called z) (sym (inv.drained t))
                ∙ inv.whole,
            inv.connection t,
          ),
          λ f.
              ap (λ z. z.1) (closes (run_calls calls opened) f)
              ∙ ap (λ z. ok (failures z)) (inv.waiting f),
        )
