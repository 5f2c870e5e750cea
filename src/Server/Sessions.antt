-- ===== src/Server/Sessions.antt =====
-- What a session leaves of the files, and that it comes to its end.
pub mod Menus
pub mod Students
pub mod Clients
use academia_cr.Prelude.{
  ℕ, ◌≡◌, refl, ap, sym, subst, ◌∙◌, String, Bool, true, false, Option, none, some, List, [], ◌∷◌,
  ℤ, pos, negsuc, if◌then◌else◌, zero, suc, arith,
}
use academia_cr.FileOps.{Files, Opens, Outcome, returns, overflow}
use academia_cr.FileOps.Agreement.{FitsId}
use academia_cr.FileOps.Agreement.Cataloguing.{SeatsFit}
use academia_cr.Server.{
  Input, Turn, logout, answered, answer, reply, then_also, enrolled_turn, menu_loop,
}

-- An id that fits in its array, and seats from 0 to 100.
pub record SizedInput (i : Input) : Type 0 where
  pub id : FitsId i.id
  pub seats : SeatsFit i.seats

unfoldable pub AllSized : List Input → Type 0
AllSized [] = true ≡ true
AllSized (i ∷ is) = SizedInput i × AllSized is

-- A turn that returned: the menu has ended, or P holds of the files.
pub data Kept (P : Files → Type 0) : Outcome Turn → Type 0 where
  ended : Kept P (returns logout)
  kept : (text : String) (g : Files) → P g → Kept P (returns (answered (text, g)))

-- A menu that returned, with files of which P holds.
pub record Served (P : Files → Type 0) (r : Outcome (List String × Files)) : Type 0 where
  pub sent : List String
  pub after : Files
  pub result : r ≡ returns (sent, after)
  pub holds : P after

module _ {P : Files → Type 0} where
  pub if-Kept : {x y : Outcome Turn} (b : Bool) → Kept P x → Kept P y → Kept P (if b then x else y)
  if-Kept true k l = k
  if-Kept false k l = l

  pub reply-Kept :
      (r : ℤ × Files) (good bad : String) → P r.1 → Kept P (returns (answered (reply r good bad)))
  reply-Kept (ret, g) good bad p = kept (answer ret good bad) g p

  pub then_also-kept :
      (r : ℤ × Files) (next : Files → ℤ × Files)
      → P r.1
      → ((g : Files) → P g → P (next g).1)
      → P (then_also r next).1
  then_also-kept (pos zero, g) next p q = q g p
  then_also-kept (pos (suc n), g) next p q = p
  then_also-kept (negsuc n, g) next p q = p

  pub enrolled_turn-Kept :
      (r : Outcome (ℤ × Files)) (text : ℤ → String) (code : ℤ) (g : Files)
      → r ≡ returns (code, g)
      → P g
      → Kept P (enrolled_turn r text)
  unfolding enrolled_turn
  enrolled_turn-Kept r text code g h p =
      subst (λ (x : Outcome (ℤ × Files)). Kept P (enrolled_turn x text)) (sym h)
        (kept (text code) g p)

  -- The menu, after a turn that returned.
  after_turn :
      (turn : Input → Files → Outcome Turn) (menu : String) (i : Input) (is : List Input)
      (f : Files) (r : Outcome Turn)
      → turn i f ≡ r
      → Kept P r
      → ((g : Files) → P g → Served P (menu_loop turn menu is g))
      → P f
      → Served P (menu_loop turn menu (i ∷ is) f)
  unfolding menu_loop
  after_turn turn menu i is f _ h ended rest p = record {
    sent = menu ∷ "Logout successful\n" ∷ [];
    after = f;
    result = ground (arith, h);
    holds = p;
  }
  after_turn turn menu i is f _ h (kept text g q) rest p =
      let s = rest g q in
      record {
        sent = menu ∷ text ∷ s.sent;
        after = s.after;
        result = ground (arith, h, s.result);
        holds = s.holds;
      }

  -- A menu of which every turn returns and keeps P comes to its end and keeps P.
  pub menu_loop-Served :
      (turn : Input → Files → Outcome Turn) (menu : String)
      → ((i : Input) (g : Files) → SizedInput i → P g → Kept P (turn i g))
      → (is : List Input) (f : Files) → AllSized is
      → P f
      → Served P (menu_loop turn menu is f)
  unfolding menu_loop AllSized
  menu_loop-Served turn menu good [] f z p = record {
    sent = menu ∷ [];
    after = f;
    result = refl;
    holds = p;
  }
  menu_loop-Served turn menu good (i ∷ is) f z p =
      after_turn turn menu i is f (turn i f) refl (good i f z.0 p)
        (λ g q. menu_loop-Served turn menu good is g z.1 q) p
