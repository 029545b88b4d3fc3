-- ===== src/Deps/Order.antt =====
-- orderLockedModulesForBuild of src/core/module_deps.cpp. Names stand for std::string keys; `int` is
-- taken as an integer without bounds, since it counts the entries of one file.
pub mod Degree
pub mod Rounds
pub mod Start
pub mod Built
use winglib.Base.{
  ℕ, zero, suc, ◌+◌, Bool, true, false, ◌||◌, not, List, [], ◌∷◌, ◌++◌, Option, none, some, Text,
  text_eq, text_Eq, member, lookup, assign, length, if◌then◌else◌, ltb, ◌==◌, Result, ok, err,
}
use winglib.Deps.Lockfile.{LockedModule, Lockfile}

pub data ℤ : Type 0 where
  pos negsuc : ℕ → ℤ

abbrev pub decrement : ℤ → ℤ
decrement (pos (suc n)) = pos n
decrement (pos zero) = negsuc zero
decrement (negsuc n) = negsuc (suc n)

abbrev pub is_zero : ℤ → Bool
is_zero (pos zero) = true
is_zero (pos (suc n)) = false
is_zero (negsuc n) = false

-- `deps[name]`, and `indegree[name]`.
unfoldable pub edges_at : Text → List (Text × List Text) → List Text
edges_at name deps = elim (lookup name deps) [ none ↦ [] | some edges ↦ edges ]

unfoldable pub degree_at : Text → List (Text × ℤ) → ℤ
degree_at name indegree = elim (lookup name indegree) [ none ↦ pos 0 | some n ↦ n ]

unfoldable pub index_by_name :
    List (Text × LockedModule) → List LockedModule → List (Text × LockedModule)
index_by_name by_name [] = by_name
index_by_name by_name (m ∷ ms) = index_by_name (assign m.name m by_name) ms

unfoldable pub is_known : List (Text × LockedModule) → Text → Bool
is_known by_name dep = elim (lookup dep by_name) [ none ↦ false | some m ↦ true ]

unfoldable pub count_known : List (Text × LockedModule) → List Text → ℕ
unfolding is_known
count_known by_name [] = 0
count_known by_name (dep ∷ deps) =
    let n = count_known by_name deps in if is_known by_name dep then suc n else n

unfoldable pub initial_degrees :
    List (Text × LockedModule)
    → List (Text × List Text)
    → List (Text × ℤ)
    → List LockedModule
    → List (Text × ℤ)
unfolding count_known edges_at
initial_degrees by_name deps indegree [] = indegree
initial_degrees by_name deps indegree (m ∷ ms) =
    initial_degrees by_name deps
      (assign m.name (pos (count_known by_name (edges_at m.name deps))) indegree) ms

-- The first module that is not placed and waits for none.
unfoldable pub pick : List Text → List (Text × ℤ) → List LockedModule → Option LockedModule
unfolding degree_at
pick placed indegree [] = none
pick placed indegree (m ∷ ms) =
    let rest = pick placed indegree ms in
    if member m.name placed || not (is_zero (degree_at m.name indegree)) then rest else some m

unfoldable pub lower : Text → Text → List Text → List (Text × ℤ) → List (Text × ℤ)
unfolding degree_at
lower name other [] indegree = indegree
lower name other (dep ∷ deps) indegree =
    if text_eq dep name
    then lower name other deps (assign other (decrement (degree_at other indegree)) indegree)
    else lower name other deps indegree

unfoldable pub lower_all :
    List (Text × List Text)
    → List Text
    → Text
    → List LockedModule
    → List (Text × ℤ)
    → List (Text × ℤ)
unfolding lower edges_at
lower_all deps placed name [] indegree = indegree
lower_all deps placed name (other ∷ others) indegree =
    if member other.name placed
    then lower_all deps placed name others indegree
    else lower_all deps placed name others
        (lower name other.name (edges_at other.name deps) indegree)

pub record Progress : Type 0 where
  pub ordered : List LockedModule
  pub placed : List Text
  pub indegree : List (Text × ℤ)

unfoldable pub place :
    List (Text × List Text) → List LockedModule → LockedModule → Progress → Progress
unfolding lower_all
place deps modules m p =
    let placed = p.placed ++ m.name ∷ [] in
    record {
      ordered = p.ordered ++ m ∷ [];
      placed = placed;
      indegree = lower_all deps placed m.name modules p.indegree;
    }

-- The `while` loop; `none` when its rounds run out.
unfoldable pub run_rounds :
    ℕ → List (Text × List Text) → List LockedModule → Progress → Option Progress
unfolding pick place
run_rounds zero deps modules p =
    if not (ltb (length p.ordered) (length modules))
    then some p
    else elim (pick p.placed p.indegree modules) [ none ↦ some p | some m ↦ none ]
run_rounds (suc rounds) deps modules p =
    if not (ltb (length p.ordered) (length modules))
    then some p
    else elim (pick p.placed p.indegree modules) [
      | none ↦ some p
      | some m ↦ run_rounds rounds deps modules (place deps modules m p)
    ]

pub data OrderError : Type 0 where
  source_cycle rounds_ran_out : OrderError

unfoldable pub finish : List LockedModule → Option Progress → Result OrderError (List LockedModule)
finish modules none = err rounds_ran_out
finish modules (some p) =
    if not (length p.ordered == length modules) then err source_cycle else ok p.ordered

-- `read` gives the names of a module's source dependencies, if its fetched metadata can be read.
module _ (read : LockedModule → Option (List Text)) where
  unfoldable pub edges_of : LockedModule → List Text
  edges_of m = elim (read m) [ none ↦ [] | some edges ↦ edges ]

  unfoldable pub index_deps : List (Text × List Text) → List LockedModule → List (Text × List Text)
  unfolding edges_of
  index_deps deps [] = deps
  index_deps deps (m ∷ ms) = index_deps (assign m.name (edges_of m) deps) ms

  unfoldable pub order_locked_modules_for_build : Lockfile → Result OrderError (List LockedModule)
  unfolding index_deps index_by_name initial_degrees run_rounds finish
  order_locked_modules_for_build lock =
      let modules = lock.modules in
      let by_name = index_by_name [] modules in
      let deps = index_deps [] modules in
      finish modules (
        run_rounds (length modules) deps modules (record {
          ordered = [];
          placed = [];
          indegree = initial_degrees by_name deps [] modules;
        }))
