-- ===== src/Tests/Lists.antt =====
-- The query of the table's users: the example.
use go_rest_boilerplate.Base.{pos, false, List, [], ◌∷◌, ◌≡◌, refl}
use go_rest_boilerplate.Exec.{ok}
use go_rest_boilerplate.State.{State}
use go_rest_boilerplate.Records.{Users, to_domain}
use go_rest_boilerplate.Repository.{run_statement}
use go_rest_boilerplate.Repository.Listing.{UserListFilter, list, select, take, drop}
use go_rest_boilerplate.Tests.Fixture.{app, row, start}

abbrev users_only : UserListFilter
users_only = record { role_id = pos 2; active_only = false; include_deleted = false }

abbrev same_order : List Users → List Users
same_order l = l

abbrev after : State app
after = (list app same_order users_only (pos 0) (pos 500) (start false 0)).1

listed :
    list app same_order users_only (pos 0) (pos 500) (start false 0)
    ≡ (ok (to_domain (row false) ∷ []), after)
unfolding list run_statement select take drop
listed = refl
