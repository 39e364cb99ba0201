-- ===== src/Server/Standing.antt =====
-- Where the loops and the results of Base/Server.cpp are.
use bugat.Common.{
  ℕ, ◌+◌, ◌≡◌, refl, sym, ap, ◌∙◌, true, false, List, [], ◌∷◌, ◌++◌, append_assoc, ◌==◌, if_cases,
  append-nil, arith,
}
use bugat.Common.Count.{is}
use bugat.Server.{
  AwaitAccept, NewConnection, ServerTask, begin, woken, ServerEvent, create_connection, serve,
  Completed, unknown, known, leave, take_accept,
}

-- How many of the outstanding accepts have a number, and so for tasks and connections.
unfoldable pub count_waiting : (AwaitAccept → ℕ) → ℕ → List AwaitAccept → ℕ
count_waiting key k [] = 0
count_waiting key k (a ∷ others) = is k (key a) + count_waiting key k others

abbrev pub loop_of : ServerTask → ℕ
loop_of (begin l i) = l
loop_of (woken a error) = a.accept_loop

unfoldable pub count_tasks : ℕ → List ServerTask → ℕ
count_tasks l [] = 0
count_tasks l (p ∷ ps) = is l (loop_of p) + count_tasks l ps

unfoldable pub count_given : ℕ → List NewConnection → ℕ
count_given k [] = 0
count_given k (c ∷ cs) = is k c.socket + count_given k cs

-- What the tasks will do for the results that they carry.
abbrev pub serves_of : ServerTask → List ServerEvent
serves_of (begin l i) = []
serves_of (woken a true) = []
serves_of (woken a false) = serve (create_connection a)

abbrev pub ends_of : ServerTask → List ℕ
ends_of (begin l i) = []
ends_of (woken a true) = a.accept_loop ∷ []
ends_of (woken a false) = []

unfoldable pub to_serve : List ServerTask → List ServerEvent
to_serve [] = []
to_serve (p ∷ ps) = serves_of p ++ to_serve ps

unfoldable pub to_end : List ServerTask → List ℕ
to_end [] = []
to_end (p ∷ ps) = ends_of p ++ to_end ps

-- `OnAccept` and `Start` of connections, one after the other.
unfoldable pub served : List NewConnection → List ServerEvent
served [] = []
served (c ∷ cs) = serve c ++ served cs

pub count_waiting-append :
    (key : AwaitAccept → ℕ) (k : ℕ) (xs : List AwaitAccept) (a : AwaitAccept)
    → count_waiting key k (xs ++ a ∷ []) ≡ count_waiting key k xs + is k (key a)
unfolding count_waiting
count_waiting-append key k [] a = omega arith
count_waiting-append key k (x ∷ xs) a = omega (arith, count_waiting-append key k xs a)

pub count_tasks-append :
    (l : ℕ) (ps : List ServerTask) (p : ServerTask)
    → count_tasks l (ps ++ p ∷ []) ≡ count_tasks l ps + is l (loop_of p)
unfolding count_tasks
count_tasks-append l [] p = omega arith
count_tasks-append l (x ∷ ps) p = omega (arith, count_tasks-append l ps p)

pub count_given-append :
    (k : ℕ) (cs : List NewConnection) (c : NewConnection)
    → count_given k (cs ++ c ∷ []) ≡ count_given k cs + is k c.socket
unfolding count_given
count_given-append k [] c = omega arith
count_given-append k (x ∷ cs) c = omega (arith, count_given-append k cs c)

pub to_serve-append :
    (ps : List ServerTask) (p : ServerTask) → to_serve (ps ++ p ∷ []) ≡ to_serve ps ++ serves_of p
unfolding to_serve
to_serve-append [] p = append-nil (serves_of p)
to_serve-append (x ∷ ps) p =
    ap (λ xs. serves_of x ++ xs) (to_serve-append ps p)
    ∙ sym (append_assoc (serves_of x) (to_serve ps) (serves_of p))

pub to_end-append :
    (ps : List ServerTask) (p : ServerTask) → to_end (ps ++ p ∷ []) ≡ to_end ps ++ ends_of p
unfolding to_end
to_end-append [] p = append-nil (ends_of p)
to_end-append (x ∷ ps) p =
    ap (λ xs. ends_of x ++ xs) (to_end-append ps p)
    ∙ sym (append_assoc (ends_of x) (to_end ps) (ends_of p))

pub served-append :
    (cs : List NewConnection) (c : NewConnection) → served (cs ++ c ∷ []) ≡ served cs ++ serve c
unfolding served
served-append [] c = refl
served-append (x ∷ cs) c =
    ap (λ xs. serve x ++ xs) (served-append cs c)
    ∙ sym (append_assoc (serve x) (served cs) (serve c))

-- The accept that is taken is one of those that were there.
pub data TakesAccept (xs : List AwaitAccept) : Completed → Type 0 where
  none_taken : TakesAccept xs unknown
  one_taken :
      {a : AwaitAccept} {rest : List AwaitAccept}
      → ((key : AwaitAccept → ℕ) (k : ℕ)
          → count_waiting key k xs ≡ is k (key a) + count_waiting key k rest)
      → TakesAccept xs (known a rest)

leave-TakesAccept :
    (a : AwaitAccept) (xs : List AwaitAccept) (c : Completed)
    → TakesAccept xs c
    → TakesAccept (a ∷ xs) (leave a c)
unfolding count_waiting
leave-TakesAccept a xs _ none_taken = none_taken
leave-TakesAccept a xs _ (one_taken h) = one_taken (λ key k. omega (arith, h key k))

pub take_accept-TakesAccept : (l : ℕ) (xs : List AwaitAccept) → TakesAccept xs (take_accept l xs)
unfolding count_waiting
take_accept-TakesAccept l [] = none_taken
take_accept-TakesAccept l (a ∷ xs) =
    if_cases (TakesAccept (a ∷ xs)) (a.accept_loop == l) (known a xs) (leave a (take_accept l xs))
      (λ _. one_taken (λ key k. refl))
      (λ _. leave-TakesAccept a xs (take_accept l xs) (take_accept-TakesAccept l xs))
