-- ===== src/Tests/Managers.antt =====
-- The theorems on the session manager, at two sessions.
use network_etc.Base.{some, ◌==◌, not, ℕ, ◌≡◌, ◌+◌, refl, true, false, [], ◌∷◌, arith, codes}
use network_etc.SessionManager.{Session, Manager, fault, empty, insert, remove, clear_group}
use network_etc.SessionManager.Consistency.{
  IsConsistent, Managed, start, inserted, removes, Managed-IsConsistent,
}
use network_etc.SessionManager.Faults.{clear_group_faults}
use network_etc.SessionManager.Next.{next_session, pointers, order}
use network_etc.SessionManager.Next.Rotating.{next_session-rotates}
use network_etc.SessionManager.Expecting.{expect_all, answers, expect_all-answers}

-- The session at the pointer `p` has the id `p + 100` and the remote address `p + 200`.
abbrev object : ℕ → Session
object p = record { id = p + 100; remote = p + 200; group = codes "web"; closed = true }

abbrev one : Manager
one = insert object empty 1

one-Managed : Managed object one
unfolding empty
one-Managed = inserted empty 1 start (λ e. omega (arith, e)) refl refl

Managed-IsConsistent_example : IsConsistent object (remove object (insert object one 2) 101).0
unfolding insert empty
Managed-IsConsistent_example =
    Managed-IsConsistent object (remove object (insert object one 2) 101).0 (
      removes (insert object one 2) 101
        (inserted one 2 one-Managed (λ e. omega (arith, e)) refl refl))

clear_group_faults_example : clear_group object 2 one (codes "web") ≡ fault
unfolding insert empty
clear_group_faults_example = clear_group_faults object 0 one (codes "web")

expect_all-answers_example :
    (m' : Manager) × (expect_all 4 empty (codes "web") ≡ some m')
    × (answers 5 m' (codes "web") ≡ true ∷ true ∷ false ∷ true ∷ false ∷ [])
unfolding empty
expect_all-answers_example = expect_all-answers 2 empty (codes "web") refl (omega arith)

-- Only the session behind the pointer 2 is open.
abbrev door : ℕ → Session
door p = record (object p) { closed = not (p == 2) }

next_session-rotates_example : next_session door (1 ∷ 2 ∷ 3 ∷ []) 5 ≡ some (some 2, 5)
next_session-rotates_example =
    next_session-rotates door (1 ∷ 2 ∷ 3 ∷ []) 5 (omega arith) (omega arith)

-- The sessions of a manager come in the order of their ids.
ordered : pointers (order ((7, 70) ∷ (3, 30) ∷ (5, 50) ∷ [])) ≡ 30 ∷ 50 ∷ 70 ∷ []
ordered = refl
