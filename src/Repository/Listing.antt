-- ===== src/Repository/Listing.antt =====
-- `List` of internal/datasources/repositories/postgres/users/users.list.go.
pub mod Pages
use go_rest_boilerplate.Base.{
  ℕ, zero, suc, ℤ, pos, negsuc, Bool, not, ◌&&◌, ◌||◌, List, [], ◌∷◌, map, ltb, if◌then◌else◌,
}
use go_rest_boilerplate.Base.Int.{eq_ℤ}
use go_rest_boilerplate.Exec.{Exec, ok, pure, ◌>>=◌}
use go_rest_boilerplate.Config.{App}
use go_rest_boilerplate.State.{State}
use go_rest_boilerplate.Records.{Users, to_domain}
use go_rest_boilerplate.Domain.User.{User}
use go_rest_boilerplate.Repository.{run_statement}
use go_rest_boilerplate.Repository.Table.{is_live}

-- `UserListFilter` of the repository's interface
pub record UserListFilter : Type 0 where
  pub role_id : ℤ
  pub active_only : Bool
  pub include_deleted : Bool

abbrev pub hard_limit : ℕ
hard_limit = 200

abbrev pub clamped_limit : ℤ → ℕ
clamped_limit (pos zero) = hard_limit
clamped_limit (pos (suc n)) = if ltb hard_limit (suc n) then hard_limit else suc n
clamped_limit (negsuc n) = hard_limit

abbrev pub clamped_offset : ℤ → ℕ
clamped_offset (pos n) = n
clamped_offset (negsuc n) = 0

-- The WHERE clause.
abbrev pub matches : UserListFilter → Users → Bool
matches filter r =
    (filter.include_deleted || is_live r)
    && (eq_ℤ filter.role_id (pos 0) || eq_ℤ r.role_id filter.role_id)
    && (not filter.active_only || r.active)

unfoldable pub select : (Users → Bool) → List Users → List Users
select p [] = []
select p (r ∷ t) = let rest = select p t in if p r then r ∷ rest else rest

module _ {A : Type 0} where
  unfoldable pub take : ℕ → List A → List A
  take zero l = []
  take (suc n) [] = []
  take (suc n) (x ∷ l) = x ∷ take n l

  unfoldable pub drop : ℕ → List A → List A
  drop zero l = l
  drop (suc n) [] = []
  drop (suc n) (x ∷ l) = drop n l

-- `LIMIT … OFFSET …`
abbrev pub page : {A : Type 0} → ℕ → ℕ → List A → List A
page offset limit l = take limit (drop offset l)

-- The server's `ORDER BY created_at DESC`: it chooses the order of rows with the same time.
module _ (app : App) (order_by_created_at : List Users → List Users) where
  unfoldable pub list : UserListFilter → ℤ → ℤ → Exec (State app) (List User)
  list filter offset limit = do
    rows ← run_statement app (λ t. (
      ok (
          page (clamped_offset offset) (clamped_limit limit)
            (order_by_created_at (select (matches filter) t))),
      t,
    ))
    pure (map to_domain rows)
