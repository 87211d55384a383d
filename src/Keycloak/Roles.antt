-- ===== src/Keycloak/Roles.antt =====
-- Which roles `extract_airflow_role_keys` of ingestion_airflow/keycloak_fab_oauth.py gives.
use ingestion_airflow.Common.{
  String, ◌≡◌, ◌↔◌, refl, sym, ap, ◌||◌, ◌⊎◌, inl, inr, Bool, true, List, [], ◌∷◌, arith, str_eq,
  eq_iff, Bool-cases,
}
use ingestion_airflow.Py.Text.{is_one_of}
use ingestion_airflow.Py.Value.{Value, null, bool, int, float, text, list, dict, Items, nil, cons}
use ingestion_airflow.Py.Dict.{Dict, get, entries}
use ingestion_airflow.Keycloak.Claims.{
  airflow_role_names, filtered_roles, or_public, roles_of_list, roles_of_access,
  extract_airflow_role_keys,
}

-- The text is one of the list.
abbrev pub IsIn : String → List String → Type 0
IsIn r [] = ⊥
IsIn r (x ∷ xs) = (x ≡ r) ⊎ IsIn r xs

-- The text is one of the values.
abbrev pub IsItem : String → Items → Type 0
IsItem r nil = ⊥
IsItem r (cons v roles) = (v ≡ text r) ⊎ IsItem r roles

-- The roles that Airflow has.
abbrev pub IsAirflowRole : String → Type 0
IsAirflowRole r = (r ≡ "Viewer") ⊎ (r ≡ "User") ⊎ (r ≡ "Op") ⊎ (r ≡ "Admin") ⊎ (r ≡ "SuperAdmin")

abbrev pub Listed : Value → String → Type 0
Listed (list roles) r = IsItem r roles
Listed _ r = ⊥

abbrev pub ListedIn : Value → String → Type 0
ListedIn (dict access) r = Listed (get (entries access) "roles") r
ListedIn _ r = ⊥

-- The claims give the role: `realm_access` is an object, whose `roles` is a list that has it.
abbrev pub Granted : Dict → String → Type 0
Granted claims r = ListedIn (get claims "realm_access") r × IsAirflowRole r

eq_or : (x r : String) (b : Bool) → (str_eq x r || b) ≡ true → (r ≡ x) ⊎ (b ≡ true)
eq_or x r b h = elim (Bool-cases (str_eq x r)) [
  | inl e ↦ inl (sym ((eq_iff x r).0 e))
  | inr e ↦ inr (ground arith)
]

names_only : (r : String) → is_one_of r airflow_role_names ≡ true → IsAirflowRole r
unfolding is_one_of
names_only r h = elim (eq_or "Viewer" r _ h) [
  | inl e ↦ inl e
  | inr h ↦ elim (eq_or "User" r _ h) [
    | inl e ↦ inr (inl e)
    | inr h ↦ elim (eq_or "Op" r _ h) [
      | inl e ↦ inr (inr (inl e))
      | inr h ↦ elim (eq_or "Admin" r _ h) [
        | inl e ↦ inr (inr (inr (inl e)))
        | inr h ↦ elim (eq_or "SuperAdmin" r _ h) [
          | inl e ↦ inr (inr (inr (inr e)))
          | inr h ↦ absurd (cc)
        ]
      ]
    ]
  ]
]

names_all : (r : String) → IsAirflowRole r → is_one_of r airflow_role_names ≡ true
unfolding is_one_of
names_all r (inl e) = rw e refl
names_all r (inr (inl e)) = rw e refl
names_all r (inr (inr (inl e))) = rw e refl
names_all r (inr (inr (inr (inl e)))) = rw e refl
names_all r (inr (inr (inr (inr e)))) = rw e refl

later :
    (r : String) (v : Value) (roles : Items)
    → IsItem r roles × IsAirflowRole r
    → IsItem r (cons v roles) × IsAirflowRole r
later r v roles p = (inr p.0, p.1)

filtered_only :
    (r : String) (roles : Items) → IsIn r (filtered_roles roles) → IsItem r roles × IsAirflowRole r
unfolding filtered_roles
filtered_only r nil h = absurd h
filtered_only r (cons (text s) roles) h = elim (Bool-cases (is_one_of s airflow_role_names)) [
  | inl e ↦ here e (rw e at h) (filtered_only r roles)
  | inr e ↦ later r (text s) roles (filtered_only r roles (rw e at h))
]
  where
    here :
        is_one_of s airflow_role_names ≡ true
        → IsIn r (s ∷ filtered_roles roles)
        → (IsIn r (filtered_roles roles) → IsItem r roles × IsAirflowRole r)
        → IsItem r (cons (text s) roles) × IsAirflowRole r
    here e (inl same) ih = (inl (ap text same), rw (← same) (names_only s e))
    here e (inr more) ih = let p : IsItem r roles × IsAirflowRole r = ih more in (inr p.0, p.1)
filtered_only r (cons null roles) h = later r null roles (filtered_only r roles h)
filtered_only r (cons (bool b) roles) h = later r (bool b) roles (filtered_only r roles h)
filtered_only r (cons (int z) roles) h = later r (int z) roles (filtered_only r roles h)
filtered_only r (cons (float z) roles) h = later r (float z) roles (filtered_only r roles h)
filtered_only r (cons (list z) roles) h = later r (list z) roles (filtered_only r roles h)
filtered_only r (cons (dict z) roles) h = later r (dict z) roles (filtered_only r roles h)

filtered_all :
    (r : String) (roles : Items) → IsItem r roles → IsAirflowRole r → IsIn r (filtered_roles roles)
unfolding filtered_roles
filtered_all r nil h k = absurd h
filtered_all r (cons (text s) roles) (inl e) k =
    let same : s ≡ r = cc in
    let named : is_one_of s airflow_role_names ≡ true = rw same (names_all r k) in
    rw named (inl same)
filtered_all r (cons (text s) roles) (inr h) k =
    elim (Bool-cases (is_one_of s airflow_role_names)) [
      | inl e ↦ rw e (inr (filtered_all r roles h k))
      | inr e ↦ rw e (filtered_all r roles h k)
    ]
filtered_all r (cons null roles) (inr h) k = filtered_all r roles h k
filtered_all r (cons (bool b) roles) (inr h) k = filtered_all r roles h k
filtered_all r (cons (int z) roles) (inr h) k = filtered_all r roles h k
filtered_all r (cons (float z) roles) (inr h) k = filtered_all r roles h k
filtered_all r (cons (list z) roles) (inr h) k = filtered_all r roles h k
filtered_all r (cons (dict z) roles) (inr h) k = filtered_all r roles h k
filtered_all r (cons null roles) (inl e) k = absurd (cc)
filtered_all r (cons (bool b) roles) (inl e) k = absurd (cc)
filtered_all r (cons (int z) roles) (inl e) k = absurd (cc)
filtered_all r (cons (float z) roles) (inl e) k = absurd (cc)
filtered_all r (cons (list z) roles) (inl e) k = absurd (cc)
filtered_all r (cons (dict z) roles) (inl e) k = absurd (cc)

-- What `P` says of, and the public role where it says it of nothing.
abbrev pub OrPublic : (String → Type 0) → String → Type 0
OrPublic P r = P r ⊎ ((r ≡ "Public") × ((s : String) → P s → ⊥))

public_iff :
    (P : String → Type 0) (r : String)
    → ((s : String) → P s → ⊥)
    → IsIn r ("Public" ∷ []) ↔ OrPublic P r
public_iff P r empty = (only, all)
  where
    only : IsIn r ("Public" ∷ []) → OrPublic P r
    only (inl e) = inr (sym e, empty)
    only (inr h) = absurd h

    all : OrPublic P r → IsIn r ("Public" ∷ [])
    all (inl h) = absurd (empty r h)
    all (inr (e, _)) = inl (sym e)

or_public_iff :
    (P : String → Type 0) (r : String) (roles : List String)
    → ((s : String) → IsIn s roles ↔ P s)
    → IsIn r (or_public roles) ↔ OrPublic P r
or_public_iff P r [] iff = public_iff P r (λ s h. (iff s).1 h)
or_public_iff P r (x ∷ roles) iff = (λ h. inl ((iff r).0 h), all)
  where
    all : OrPublic P r → IsIn r (x ∷ roles)
    all (inl h) = (iff r).1 h
    all (inr (_, empty)) = absurd (empty x ((iff x).0 (inl refl)))

Listed-iff :
    (v : Value) (r : String)
    → IsIn r (roles_of_list v) ↔ OrPublic (λ s. Listed v s × IsAirflowRole s) r
Listed-iff (list roles) r =
    or_public_iff (λ s. IsItem s roles × IsAirflowRole s) r (filtered_roles roles)
      (λ s. (filtered_only s roles, λ h. filtered_all s roles h.0 h.1))
Listed-iff null r = public_iff _ r (λ s h. h.0)
Listed-iff (bool b) r = public_iff _ r (λ s h. h.0)
Listed-iff (int z) r = public_iff _ r (λ s h. h.0)
Listed-iff (float z) r = public_iff _ r (λ s h. h.0)
Listed-iff (text z) r = public_iff _ r (λ s h. h.0)
Listed-iff (dict z) r = public_iff _ r (λ s h. h.0)

access_iff :
    (v : Value) (r : String)
    → IsIn r (roles_of_access v) ↔ OrPublic (λ s. ListedIn v s × IsAirflowRole s) r
access_iff (dict access) r = Listed-iff (get (entries access) "roles") r
access_iff null r = public_iff _ r (λ s h. h.0)
access_iff (bool b) r = public_iff _ r (λ s h. h.0)
access_iff (int z) r = public_iff _ r (λ s h. h.0)
access_iff (float z) r = public_iff _ r (λ s h. h.0)
access_iff (text z) r = public_iff _ r (λ s h. h.0)
access_iff (list z) r = public_iff _ r (λ s h. h.0)

-- A user gets exactly the roles of Airflow that the claims list under `realm_access`, and the
-- public role exactly where they list none.
pub extract_airflow_role_keys_iff :
    (claims : Dict) (r : String)
    → IsIn r (extract_airflow_role_keys claims) ↔ OrPublic (Granted claims) r
unfolding extract_airflow_role_keys
extract_airflow_role_keys_iff claims r = access_iff (get claims "realm_access") r
