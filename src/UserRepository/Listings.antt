-- ===== src/UserRepository/Listings.antt =====
-- backend/include/repositories/UserRepository.hpp: the listings.
use academia_cr.Prelude.{List, leb, select, order_by}
use academia_cr.Models.{User, Role}
use academia_cr.Database.{Tables}
use academia_cr.Text.{text_before}
use academia_cr.UserRepository.{same_role}

-- UserRepository::find_all
unfoldable pub find_all : Tables → List User
find_all t = order_by (λ x y. leb x.id y.id) t.users

-- UserRepository::find_by_role
unfoldable pub find_by_role : Tables → Role → List User
find_by_role t role =
    order_by (λ x y. text_before x.name y.name)
      (select (λ (u : User). same_role u.role role) t.users)
