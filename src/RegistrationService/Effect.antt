-- ===== src/RegistrationService/Effect.antt =====
-- What a successful register_student and drop_student have done to the tables, and the seats that
-- they report.
use academia_cr.Prelude.{
  to_int, FitsInt, to_int-FitsInt, ◌∙◌, ℕ, ◌+◌, ◌≡◌, sym, subst, inl, inr, true, some, arith, ◌==◌,
  ◌&&◌, if◌then◌else◌, eq_of_==, ℤ, pos, ◌-ℤ◌, ◌+ℤ◌, select_first,
}
use academia_cr.Prelude.Counting.{select_first-some}
use academia_cr.Models.{CourseRow}
use academia_cr.Database.{Tables, Connection, ok, Answers, transaction}
use academia_cr.Database.Transaction.{begun, Result-cases, transaction_ok}
use academia_cr.Integrity.{RegistrationsSound}
use academia_cr.CourseRepository
use academia_cr.CourseRepository.{has_id, get_enrolled_count}
use academia_cr.RegistrationRepository.{create, exists, drop_registration}
use academia_cr.RegistrationRepository.Enrolment.{
  Enrols, enrolled, create-Enrols, create-frame, drop_registration-pairs, drop_registration-seats,
  drop_registration-frame,
}
use academia_cr.RegistrationRepository.Effects.{pair-split}
use academia_cr.RegistrationService.{
  RegistrationResult, inserted, register_body, register_student, seats_after_drop, dropped_result,
  drop_body, drop_student,
}
use academia_cr.RegistrationService.Body.{MayCreate, register_body_cases, drop_body_cases}

-- The catalog that registrations leave alone.
pub record SameCatalog (t u : Tables) : Type 0 where
  pub users : u.users ≡ t.users
  pub courses : u.courses ≡ t.courses
  pub sessions : u.sessions ≡ t.sessions

-- A registration that went through: the pair was free, is now enrolled, no other pair changed, and
-- the reported seats are those that are left after it.
pub record Registered (s c : ℕ) (t u : Tables) (r : RegistrationResult) : Type 0 where
  pub row : CourseRow
  pub found : select_first (has_id c) t.courses ≡ some row
  pub free : enrolled t s c ≡ 0
  pub change : Enrols s c t u
  pub catalog : SameCatalog t u
  pub seats : r.remaining_seats ≡ row.capacity -ℤ pos (get_enrolled_count u c)

seats_after : (capacity : ℤ) (n : ℕ) → capacity -ℤ pos n -ℤ pos 1 ≡ capacity -ℤ pos (n + 1)
unfolding ◌-ℤ◌
seats_after capacity n = ground arith

module _ (e : Answers) (now s c : ℕ) (d : Connection) where
  -- A successful call has run create after its checks, and committed what that did.
  pub record Ran : Type 0 where
    pub checked : MayCreate e now s c (begun d)
    pub id : ℕ
    pub after : Connection
    pub created : create e now s c (begun d) ≡ (ok id, after)
    pub tables : (register_student e now s c d).1.tables ≡ after.tables
    pub number : (register_student e now s c d).0.registration_id ≡ id
    pub seats :
        (register_student e now s c d).0.remaining_seats
        ≡ checked.row.capacity -ℤ pos (get_enrolled_count d.tables c) -ℤ pos 1

  pub success-Ran : (register_student e now s c d).0.success ≡ true → Ran
  unfolding register_student inserted
  success-Ran h = elim (Result-cases (transaction e (register_body e now s c) d)) [
    | inl (r, d', k) ↦ elim (register_body_cases e now s c (begun d)) [
      | inl (m, b) ↦ elim (Result-cases (create e now s c (begun d))) [
        | inl (id, after, made) ↦ record {
          checked = m;
          id = id;
          after = after;
          created = made;
          tables = ground (arith, transaction_ok e (register_body e now s c) d d' r);
          number = ground (arith, transaction_ok e (register_body e now s c) d d' r);
          seats = ground (arith, transaction_ok e (register_body e now s c) d d' r);
        }
        | inr (message, after, made) ↦
            absurd (ground (arith, transaction_ok e (register_body e now s c) d d' r))
      ]
      | inr (r', no', b) ↦
          absurd (ground (arith, transaction_ok e (register_body e now s c) d d' r))
    ]
    | inr (message, d', k) ↦ absurd (ground arith)
  ]

-- A call of register_student that succeeds, its UPDATE carried out, has enrolled a pair that was not
-- enrolled, changed the enrolment of no other pair and the seats of no other course, left users,
-- courses and sessions alone, and reports the seats that are then left.
pub register_student-Registered :
    (e : Answers) (now s c : ℕ) (d : Connection)
    → e.update_done ≡ true
    → RegistrationsSound d.tables
    → (register_student e now s c d).0.success ≡ true
    → Registered s c d.tables
        (register_student e now s c d).1.tables
        (register_student e now s c d).0
unfolding exists
register_student-Registered e now s c d updates v h =
    let ran = success-Ran e now s c d h in
    let free : enrolled d.tables s c ≡ 0 = ground (arith, ran.checked.absent) in
    let change = create-Enrols e now s c (begun d) updates v free ran.id ran.after ran.created in
    record {
      row = ran.checked.row;
      found = ran.checked.found;
      free = free;
      change = subst (λ (u : Tables). Enrols s c d.tables u) (sym ran.tables) change;
      catalog = record {
        users = ground (arith, ran.tables, ran.created, create-frame e now s c (begun d));
        courses = ground (arith, ran.tables, ran.created, create-frame e now s c (begun d));
        sessions = ground (arith, ran.tables, ran.created, create-frame e now s c (begun d));
      };
      seats = ground (
        arith,
        ran.seats,
        ran.tables,
        change.seats c,
        seats_after ran.checked.row.capacity (get_enrolled_count d.tables c),
      );
    }

-- A drop that went through: the pair was enrolled, is so no longer, and its seat is free.
pub record Dropped (s c : ℕ) (t u : Tables) : Type 0 where
  pub was : enrolled t s c ≡ 1
  pub pairs : (s' c' : ℕ) → enrolled u s' c' ≡ (if s == s' && c == c' then 0 else enrolled t s' c')
  pub seats :
      (c' : ℕ) → get_enrolled_count u c' + (if c == c' then 1 else 0) ≡ get_enrolled_count t c'
  pub catalog : SameCatalog t u

module _ (e : Answers) (s c : ℕ) (d : Connection) where
  abbrev after_drop : Connection
  after_drop = (drop_registration e s c (begun d)).1

  record Dropping : Type 0 where
    was_enrolled : exists d.tables s c ≡ true
    tables : (drop_student e s c d).1.tables ≡ after_drop.tables
    seats :
        (drop_student e s c d).0.remaining_seats
        ≡ seats_after_drop (CourseRepository.find_by_id after_drop.tables c)

  success-Dropping : (drop_student e s c d).0.success ≡ true → Dropping
  unfolding drop_student dropped_result
  success-Dropping h = elim (Result-cases (transaction e (drop_body e s c) d)) [
    | inl (r, d', k) ↦ elim (drop_body_cases e 0 s c (begun d)) [
      | inl (x, b) ↦ record {
        was_enrolled = x;
        tables = ground (arith, transaction_ok e (drop_body e s c) d d' r);
        seats = ground (arith, transaction_ok e (drop_body e s c) d d' r);
      }
      | inr (x, b) ↦ absurd (ground (arith, transaction_ok e (drop_body e s c) d d' r))
    ]
    | inr (message, d', k) ↦ absurd (ground arith)
  ]

  module _ (updates : e.update_done ≡ true) (v : RegistrationsSound d.tables) where
    -- A call of drop_student that succeeds, its UPDATE carried out, on sound registrations has ended
    -- the enrolment of a pair that was enrolled, changed that of no other pair and the seats of no
    -- other course, and left users, courses and sessions alone.
    pub drop_student-Dropped :
        (drop_student e s c d).0.success ≡ true
        → Dropped s c d.tables (drop_student e s c d).1.tables
    unfolding exists
    drop_student-Dropped h =
        let ran = success-Dropping h in
        let was : enrolled d.tables s c ≡ 1 =
          ground (arith, ran.was_enrolled, v.pairs s c, pair-split s c d.tables.registrations) in
        rw ran.tables (record {
          was = was;
          pairs = drop_registration-pairs e s c (begun d) updates;
          seats = λ c'. ground (arith, drop_registration-seats e s c (begun d) updates c');
          catalog = record {
            users = (drop_registration-frame e s c (begun d)).0;
            courses = (drop_registration-frame e s c (begun d)).1;
            sessions = (drop_registration-frame e s c (begun d)).2;
          };
        })

    reported_seats :
        (row : CourseRow)
        → (drop_student e s c d).0.success ≡ true
        → select_first (has_id c) d.tables.courses ≡ some row
        → (drop_student e s c d).0.remaining_seats
          ≡ to_int
              (row.capacity -ℤ pos (get_enrolled_count (drop_student e s c d).1.tables c) +ℤ pos 1)
    unfolding CourseRepository.find_by_id seats_after_drop
    reported_seats row h found =
        let ran = success-Dropping h in
        ground (
          arith,
          ran.tables,
          ran.seats,
          drop_registration-frame e s c (begun d),
          eq_of_== row.id c,
          select_first-some (has_id c) d.tables.courses row,
        )

    -- On sound registrations and with its UPDATE carried out, a successful drop reports one seat more
    -- than the course has left after it, where that number fits in an int: the enrolled count that it
    -- reads no longer holds the dropped student, and 1 is added all the same.
    pub drop_student-seats :
        (row : CourseRow)
        → (drop_student e s c d).0.success ≡ true
        → select_first (has_id c) d.tables.courses ≡ some row
        → FitsInt
            (row.capacity -ℤ pos (get_enrolled_count (drop_student e s c d).1.tables c) +ℤ pos 1)
        → (drop_student e s c d).0.remaining_seats
          ≡ row.capacity -ℤ pos (get_enrolled_count (drop_student e s c d).1.tables c) +ℤ pos 1
    drop_student-seats row h found fits = reported_seats row h found ∙ to_int-FitsInt _ fits
