-- ===== src/TutorScope/Construction.antt =====
-- `NewPgxResolver` and `WithTable` of tutorscope/resolver.go: the resolver's statement for a table.
-- `sanitize` is the quoting of an identifier by the database driver.
use prompt_sdk.Prelude.{
  ◌≡◌, ◌↔◌, refl, ap, Bool, true, false, List, [], ◌∷◌, ◌++◌, map, Text, codes, is_empty, Result,
  ok, err, if◌then◌else◌, arith,
}

data ConstructionPanic : Type 0 where
  pool_must_not_be_nil table_must_not_be_empty : ConstructionPanic

record PgxResolver : Type 0 where
  table : Text
  query : Text

abbrev ResolverOption : Type 0
ResolverOption = PgxResolver → PgxResolver

abbrev default_table : Text
default_table = codes "tutor"

abbrev with_table : Text → ResolverOption
with_table t r = record r { table = t }

-- `for _, opt := range opts`
abbrev apply_options : List ResolverOption → PgxResolver → PgxResolver
apply_options [] r = r
apply_options (opt ∷ opts) r = apply_options opts (opt r)

-- The statement's text, with both places of the table filled.
unfoldable tutor_query : Text → Text
tutor_query t =
    codes "SELECT (SELECT team_id FROM "
    ++ (t
        ++ (codes
              " WHERE course_phase_id = $1 AND university_login = $2),\n\t\t        EXISTS (SELECT 1 FROM "
            ++ (t ++ codes " WHERE course_phase_id = $1)")))

module _ (sanitize : Text → Text) where
  unfoldable new_pgx_resolver : Bool → List ResolverOption → Result ConstructionPanic PgxResolver
  new_pgx_resolver pool_is_nil opts =
      if pool_is_nil
      then err pool_must_not_be_nil
      else let r = apply_options opts (record { table = default_table; query = [] }) in
        if is_empty r.table
        then err table_must_not_be_empty
        else ok (record r { query = tutor_query (sanitize r.table) })

-- The last of the names, or `t` where there is none.
abbrev last_or : Text → List Text → Text
last_or t [] = t
last_or t (s ∷ ss) = last_or s ss

apply_options-map :
    (ts : List Text) (t q : Text)
    → apply_options (map with_table ts) (record { table = t; query = q })
      ≡ record { table = last_or t ts; query = q }
apply_options-map [] t q = refl
apply_options-map (s ∷ ts) t q = apply_options-map ts s q

refused_if_iff :
    (b : Bool) (p r : PgxResolver)
    → (if◌then◌else◌ {A = Result ConstructionPanic PgxResolver} b
          (err table_must_not_be_empty)
          (ok p)
        ≡ ok r)
      ↔ ((b ≡ false) × (p ≡ r))
refused_if_iff true p r = ((λ h. cc), λ h. cc)
refused_if_iff false p r = ((λ h. (refl, ground (arith, h))), λ h. ap ok h.1)

-- A resolver is made exactly if there is a pool and the last table that an option names, or the
-- default where none does, is not empty; its statement then reads that table alone, quoted.
new_pgx_resolver_iff :
    (sanitize : Text → Text) (pool_is_nil : Bool) (ts : List Text) (r : PgxResolver)
    → (new_pgx_resolver sanitize pool_is_nil (map with_table ts) ≡ ok r) ↔ (
        (pool_is_nil ≡ false)
        × (is_empty (last_or default_table ts) ≡ false)
        × (record {
          table = last_or default_table ts;
          query = tutor_query (sanitize (last_or default_table ts));
        }
            ≡ r))
unfolding new_pgx_resolver
new_pgx_resolver_iff sanitize true ts r = ((λ h. cc), λ h. cc)
new_pgx_resolver_iff sanitize false ts r =
    let t = last_or default_table ts in
    let guarded =
      refused_if_iff (is_empty t) (record { table = t; query = tutor_query (sanitize t) }) r in
    rw (apply_options-map ts default_table [])
      ((λ h. let g = guarded.0 h in (refl, g.0, g.1)), λ h. guarded.1 (h.1, h.2))
