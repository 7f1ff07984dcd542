-- ===== src/Tests/Threads.antt =====
-- Two threads that take the lock of one number: thread 1 adds 1 in two accesses, thread 2 doubles.
use kvm_cloud.Base.{
  ℕ, ◌+◌, ◌*◌, ◌≡◌, ◌≢◌, refl, some, none, arith, List, [], ◌∷◌, ◌==◌, Bool-cases, inl, inr,
}
use kvm_cloud.Thread.Mutex.{lock, unlock}
use kvm_cloud.Thread.Sections.{
  Access, Pc, System, update, ask, enter, act, leave, start, Reach, begin, next,
}
use kvm_cloud.Thread.Serial.{owned, left, run_sections, mutual_exclusion, sections_serial}
use kvm_cloud.Thread.Progress.{Returning, waiting_enters}
use mathlib.Core.Path.{subst}

abbrev adds : List (Access ℕ)
adds = Access.does (λ n. 1 + n) ∷ Access.does (λ n. n) ∷ []

abbrev doubles : List (Access ℕ)
doubles = Access.does (λ n. 2 * n) ∷ []

abbrev asked : System ℕ
asked = record (start 5) { pc = update (start 5).pc 1 (Pc.wants adds) }

abbrev both_asked : System ℕ
both_asked = record asked { pc = update asked.pc 2 (Pc.wants doubles) }

abbrev entered_1 : System ℕ
entered_1 = record both_asked { mutex = owned 1; pc = update both_asked.pc 1 (Pc.inside adds) }

abbrev acted : System ℕ
acted = record entered_1 {
  shared = 6;
  pc = update entered_1.pc 1 (Pc.inside (Access.does (λ n. n) ∷ []));
}

lock_1 : lock 1 both_asked.mutex ≡ some (owned 1)
unfolding lock
lock_1 = refl

acted_reached : Reach 5 acted (adds ∷ [])
acted_reached =
    next 1
      (next 1 (next 2 (next 1 begin (ask adds refl)) (ask doubles refl))
        (enter adds (owned 1) refl lock_1))
      (act (λ n. 1 + n) (Access.does (λ n. n) ∷ []) refl)

one_is_not_2 : ◌≢◌ {A = ℕ} 1 2
one_is_not_2 e = omega arith

mutual_exclusion_example : left (acted.pc 2) ≡ none
mutual_exclusion_example =
    mutual_exclusion 1 2 (Access.does (λ n. n) ∷ []) acted_reached refl one_is_not_2

acted_returns : (k : ℕ) (rest : List (Access ℕ)) → acted.pc k ≡ Pc.inside rest → Returning rest
acted_returns k rest e = elim (Bool-cases (1 == k)) [
  | inl first ↦
      let here : Pc.inside (Access.does (λ n. n) ∷ []) ≡ Pc.inside rest = rw (first) at e in
      let same : ◌≡◌ {A = List (Access ℕ)} (Access.does (λ n. n) ∷ []) rest = cc in
      subst Returning same tt
  | inr other ↦ elim (Bool-cases (2 == k)) [
    | inl second ↦ let here : Pc.wants doubles ≡ Pc.inside rest = rw (other, second) at e in cc
    | inr none_here ↦
        let here : ◌≡◌ {A = Pc ℕ} Pc.idle (Pc.inside rest) = rw (other, none_here) at e in cc
  ]
]

waiting_enters_example :
    (t : System ℕ) × Reach 5 t (adds ∷ doubles ∷ []) × (t.pc 2 ≡ Pc.inside doubles)
waiting_enters_example = waiting_enters 5 2 doubles acted_reached refl acted_returns

abbrev acted_twice : System ℕ
acted_twice = record acted { pc = update acted.pc 1 (Pc.inside []) }

abbrev gone : System ℕ
gone = record acted_twice {
  mutex = unlock 1 acted_twice.mutex;
  pc = update acted_twice.pc 1 Pc.idle;
}

abbrev entered_2 : System ℕ
entered_2 = record gone { mutex = owned 2; pc = update gone.pc 2 (Pc.inside doubles) }

abbrev doubled : System ℕ
doubled = record entered_2 { shared = 12; pc = update entered_2.pc 2 (Pc.inside []) }

abbrev quiet : System ℕ
quiet = record doubled { mutex = unlock 2 doubled.mutex; pc = update doubled.pc 2 Pc.idle }

lock_2 : lock 2 gone.mutex ≡ some (owned 2)
unfolding lock unlock
lock_2 = refl

quiet_reached : Reach 5 quiet (adds ∷ doubles ∷ [])
quiet_reached =
    next 2
      (next 2
        (next 2 (next 1 (next 1 acted_reached (act (λ n. n) [] refl)) (leave refl))
          (enter doubles (owned 2) refl lock_2))
        (act (λ n. 2 * n) [] refl))
      (leave refl)

asks_none : (i : ℕ) → left (quiet.pc i) ≡ none
asks_none i = elim (Bool-cases (2 == i)) [
  | inl second ↦ rw second
  | inr not_second ↦ elim (Bool-cases (1 == i)) [
    | inl first ↦ rw (not_second, first)
    | inr other ↦ rw (not_second, other)
  ]
]

sections_serial_example : quiet.shared ≡ run_sections (adds ∷ doubles ∷ []) 5
sections_serial_example = sections_serial quiet_reached asks_none

-- thread 1 waits for a message while thread 2 wants the lock
abbrev hangs : List (Access ℕ)
hangs = Access.waits ∷ []

abbrev hung : System ℕ
hung = record (start 5) {
  mutex = owned 1;
  pc = update (update (start 5).pc 1 (Pc.wants hangs)) 1 (Pc.inside hangs);
}

abbrev hung_on : System ℕ
hung_on = record hung { pc = update hung.pc 2 (Pc.wants doubles) }
