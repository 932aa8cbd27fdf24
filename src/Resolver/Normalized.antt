-- ===== src/Resolver/Normalized.antt =====
-- Every path of a resolution is normalized.
use doover.Base.{String, List, [], ◌∷◌, inl, inr, Bool-cases, All}
use doover.Paths.{FilePath}
use doover.Snapshot.Same.{path_eq, path_leb}
use doover.Registry.Rules.{Effect}
use doover.Registry.Lookup.{Registry}
use doover.Resolver.Normal.{IsNormal}
use doover.Resolver.Outcome.{
  Out, fresh, mark_unknown, contribute, of_effect, takes_over, add, insert_path, panic, next_walk,
  joined,
}
use doover.Resolver.Scope.{Env}
use doover.Resolver.Walker.{collected, resolve}
use doover.Resolver.Primitives.{IsClosed}
use doover.Resolver.Contributions.{walk-P}

AreNormal : Out → Type 0
AreNormal o = All IsNormal o.paths

insert_path-All :
    (p : FilePath) (qs : List FilePath)
    → IsNormal p
    → All IsNormal qs
    → All IsNormal (insert_path p qs)
unfolding insert_path
insert_path-All p [] n a = (n, tt)
insert_path-All p (q ∷ qs) n (b, a) = elim (Bool-cases (path_eq p q)) [
  | inl same ↦ rw same (b, a)
  | inr other ↦ elim (Bool-cases (path_leb p q)) [
    | inl before ↦ rw (other, before) (n, (b, a))
    | inr behind ↦ rw (other, behind) (b, insert_path-All p qs n a)
  ]
]

AreNormal-IsClosed : IsClosed AreNormal
unfolding AreNormal mark_unknown add panic next_walk
AreNormal-IsClosed = record {
  unknown = λ o a. a;
  added = λ p o n a. insert_path-All p o.paths n a;
  panicked = λ o a. a;
  walked = λ o a. a;
}

contribute-AreNormal :
    (e : Effect) (id : String) (o : Out) → AreNormal o → AreNormal (contribute (of_effect e) id o)
unfolding AreNormal contribute
contribute-AreNormal e id o a = elim (Bool-cases (takes_over o.rule_id (of_effect e) o.rule_sev)) [
  | inl over ↦ rw over a
  | inr under ↦ rw under a
]

joined-AreNormal : (o : Out) → AreNormal o → All IsNormal (joined o).paths
unfolding AreNormal joined
joined-AreNormal o a = elim (Bool-cases o.panicked) [
  | inl gone ↦ rw gone tt
  | inr there ↦ rw there a
]

fresh-AreNormal : AreNormal fresh
unfolding AreNormal
fresh-AreNormal = tt

panic-AreNormal : AreNormal (panic fresh)
unfolding AreNormal panic
panic-AreNormal = tt

-- Every path of a resolution is normalized, whatever links, matches and directories the file system
-- has.
pub resolve-AreNormal :
    (env : Env) (registry : Registry) (command : String)
    → All IsNormal (resolve env registry command).paths
unfolding resolve
resolve-AreNormal env registry command = joined-AreNormal (collected env registry command) (
    walk-P env registry AreNormal AreNormal-IsClosed contribute-AreNormal command fresh-AreNormal
      panic-AreNormal)
