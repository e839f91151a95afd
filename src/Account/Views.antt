-- ===== src/Account/Views.antt =====
-- introspector/bootstrap_db.py: refresh_views, which runs the queries of a folder in the order of the
-- files' names. The folder is a parameter, and so is what the database makes of a query. The white
-- space that `strip` takes off is that of ASCII.
use introspector.Prelude.Text.{ends_with, split, is_blank}
use Prim.Native.Char.{code}
use introspector.Prelude.{
  ℕ, String, Bool, true, not, ◌&&◌, ◌||◌, List, [], ◌∷◌, ◌≡◌, ◌∙◌, refl, ◌==◌, leb, filter, map,
  if◌then◌else◌,
}
use introspector.MapperFns.{sort_texts}
use introspector.Outcome.{Outcome, ok, ◌>>=◌}

unfoldable pub is_space : ℕ → Bool
is_space c = (leb 9 c && leb c 13) || ((leb 28 c && leb c 31) || (c == 32))

unfoldable pub strip_start : String → String
unfolding is_space
strip_start String.[] = String.[]
strip_start (String.◌∷◌ c s) =
    let rest = strip_start s in if is_space (code c) then rest else String.◌∷◌ c s

unfoldable pub strip_end : String → String
unfolding is_space is_blank
strip_end String.[] = String.[]
strip_end (String.◌∷◌ c s) =
    let rest = strip_end s in
    if is_space (code c) && is_blank rest then String.[] else String.◌∷◌ c rest

-- s.strip()
unfoldable pub strip : String → String
unfolding strip_start strip_end
strip s = strip_end (strip_start s)

-- f[-4:] == '.sql'
unfoldable pub is_sql : String → Bool
unfolding ends_with
is_sql f = ends_with f ".sql"

pub record QueryFolder : Type 0 where
  pub listdir : List String
  pub is_file : String → Bool
  pub read : String → String

unfoldable pub query_files : QueryFolder → List String
unfolding sort_texts is_sql
query_files folder = sort_texts (filter (λ f. folder.is_file f && is_sql f) folder.listdir)

-- The queries of a text.
unfoldable pub to_run : String → List String
unfolding split strip is_blank
to_run query_txt = map strip (filter (λ q. not (is_blank (strip q))) (split b';' query_txt))

module _ {S : Type 0} (folder : QueryFolder) (execute : String → ℕ → S → Outcome S) where
  unfoldable pub run_queries : ℕ → List String → S → Outcome S
  run_queries p [] s = ok s
  run_queries p (query ∷ queries) s = do s1 ← execute query p s; run_queries p queries s1

  unfoldable pub run_files : ℕ → List String → S → Outcome S
  unfolding run_queries to_run
  run_files p [] s = ok s
  run_files p (f ∷ fs) s = do s1 ← run_queries p (to_run (folder.read f)) s; run_files p fs s1

  unfoldable pub refresh_views : ℕ → S → Outcome S
  unfolding run_files query_files
  refresh_views p s = run_files p (query_files folder) s

module _ {S A : Type 0} (folder : QueryFolder) (execute : String → ℕ → S → Outcome S) (kept : S → A)
    (refreshes : (query : String) (p : ℕ) (s : S)
      → (s' : S) × (execute query p s ≡ ok s') × (kept s' ≡ kept s)) where
  run_queries-keeps :
      (p : ℕ) (queries : List String) (s : S)
      → (s' : S) × (run_queries folder execute p queries s ≡ ok s') × (kept s' ≡ kept s)
  unfolding run_queries
  run_queries-keeps p [] s = (s, refl, refl)
  run_queries-keeps p (query ∷ queries) s =
      let (s1, first, same) = refreshes query p s in
      let (s2, rest, same') = run_queries-keeps p queries s1 in (s2, rw first rest, same' ∙ same)

  run_files-keeps :
      (p : ℕ) (files : List String) (s : S)
      → (s' : S) × (run_files folder execute p files s ≡ ok s') × (kept s' ≡ kept s)
  unfolding run_files
  run_files-keeps p [] s = (s, refl, refl)
  run_files-keeps p (f ∷ files) s =
      let (s1, first, same) = run_queries-keeps p (to_run (folder.read f)) s in
      let (s2, rest, same') = run_files-keeps p files s1 in (s2, rw first rest, same' ∙ same)

  -- What every query returns from and keeps, `refresh_views` does.
  pub refresh_views-keeps :
      (p : ℕ) (s : S) → (s' : S) × (refresh_views folder execute p s ≡ ok s') × (kept s' ≡ kept s)
  unfolding refresh_views
  refresh_views-keeps p s = run_files-keeps p (query_files folder) s

to_run_example : to_run "SELECT 1 ;\n SELECT 2;\n" ≡ "SELECT 1" ∷ "SELECT 2" ∷ []
unfolding to_run strip_start strip_end
to_run_example = refl

is_sql_example : is_sql "01_view.sql" && not (is_sql "01_view.sql.md") ≡ true
unfolding is_sql
is_sql_example = refl
