-- ===== src/Cloudflare/Diff.antt =====
-- _states/cloudflare.py: `Zone.diff`, the changes from the records that exist to those desired.
pub mod AtKey
pub mod Held
pub mod Keys
pub mod Settled
pub mod Target
use ffmuc_salt_public.Prelude.{
  String, Bool, true, false, not, ◌||◌, List, [], ◌∷◌, ◌++◌, Option, none, some, Eq, keep_if,
  if◌then◌else◌, ◌==◌, string_eq, bool_eq, option_eq, String-discrete, Bool-discrete,
}
use ffmuc_salt_public.Prelude.Dict.{Dict, keys, lookup, insert, has}
use ffmuc_salt_public.Cloudflare.Record.{Record, pure, record_eq}
use ffmuc_salt_public.Cloudflare.Order.{Op, add, remove, update, ordered}

-- (record.type, record.name, record.content, record.salt_managed)
pub record Key : Type 0 where
  pub type : String
  pub name : String
  pub content : String
  pub salt_managed : Bool

unfoldable pub Key-discrete : Discrete Key
Key-discrete = hlevel (String-discrete, Bool-discrete)

instance unfoldable pub key_eq : Eq Key
unfolding Key-discrete
key_eq = record { dec = Key-discrete }

unfoldable pub key : Record → Key
key r = record { type = r.type; name = r.name; content = r.content; salt_managed = r.salt_managed }

abbrev pub Tuples : Type 0
Tuples = Dict Key Record

-- The dict comprehensions. A later record of the same key replaces the earlier one.
unfoldable pub collect : List Record → Tuples → Tuples
collect [] t = t
collect (r ∷ rest) t = collect rest (insert (key r) r t)

unfoldable pub collect_managed : List Record → Dict String Bool → Dict String Bool
collect_managed [] m = m
collect_managed (r ∷ rest) m = collect_managed rest (insert r.name r.salt_managed m)

unfoldable pub difference : Tuples → Tuples → List Key
difference a b = keep_if (λ k. not (has k b)) (keys a)

unfoldable pub intersection : Tuples → Tuples → List Key
intersection a b = keep_if (λ k. has k b) (keys a)

-- The body of each loop: the change for a key, or none where the loop goes on. The keys come
-- from the dict that is read, so no lookup of the source fails.
unfoldable pub add_op : Tuples → Key → Option Op
add_op desired k = elim (lookup k desired) [
  | none ↦ none
  | some d ↦ if not d.salt_managed then none else some (record { action = add; subject = d })
]

-- `name in managed and managed[name] == False`
abbrev pub is_unmanaged : Option Bool → Bool
is_unmanaged none = false
is_unmanaged (some m) = not m

unfoldable pub remove_op : Tuples → Dict String Bool → Key → Option Op
remove_op existing managed k = elim (lookup k existing) [
  | none ↦ none
  | some x ↦
      if is_unmanaged (lookup k.name managed)
      then none
      else some (record { action = remove; subject = x })
]

-- The record of an update: the id that exists and the fields desired.
unfoldable pub updated : Record → Record → Record
updated x d = record {
  id = x.id;
  type = d.type;
  name = d.name;
  content = d.content;
  priority = d.priority;
  proxied = d.proxied;
  ttl = d.ttl;
  salt_managed = true;
}

unfoldable pub update_op : Tuples → Tuples → Key → Option Op
unfolding updated
update_op existing desired k = elim (lookup k existing) [
  | none ↦ none
  | some x ↦ elim (lookup k desired) [
    | none ↦ none
    | some d ↦
        if pure x == d || not d.salt_managed
        then none
        else some (record { action = update; subject = updated x d })
  ]
]

unfoldable pub collect_ops : (Key → Option Op) → List Key → List Op
collect_ops f [] = []
collect_ops f (k ∷ ks) =
    let rest = collect_ops f ks in elim (f k) [ none ↦ rest | some op ↦ op ∷ rest ]

-- The order in which Python walks a set is not fixed: it is the parameter `walk`.
module _ (walk : List Key → List Key) where
  unfoldable pub changes : List Record → List Record → List Op
  unfolding collect collect_managed difference intersection add_op remove_op update_op collect_ops
  changes existing_records desired_records =
      let existing = collect existing_records [] in
      let desired = collect desired_records [] in
      let managed = collect_managed desired_records [] in
      collect_ops (add_op desired) (walk (difference desired existing))
      ++ (collect_ops (remove_op existing managed) (walk (difference existing desired))
          ++ collect_ops (update_op existing desired) (walk (intersection existing desired)))

  unfoldable pub diff : List Record → List Record → List Op
  diff existing_records desired_records = ordered (changes existing_records desired_records)
