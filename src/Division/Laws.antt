-- ===== src/Division/Laws.antt =====
-- introspector/aws/map.py: the way from a path up to the node that holds its account.
use introspector.Prelude.{
  String, ◌<>◌, ◌≡◌, refl, ◌⊎◌, inl, inr, List, [], ◌∷◌, ◌++◌, true, false, any, str_eq,
  starts_with, All,
}
use introspector.Prelude.Dict.{Dict}
use text.Mathlib.TextLemmas.{nil-append, cons-append}
use introspector.Prelude.Text.{
  is_blank, split, join, split-join, split_last, Lacks, AllLack, Lacks-append,
}
use introspector.Outcome.{ok}
use introspector.Store.Rows.{ImportJob}
use introspector.Paths.{last, from_import_job, scope, path}
use introspector.Division.{
  DivisionUri, node_arn, uri_for_path, uri_for_parent, uri_for_segments, path_to, arn_of_node,
  item_at, items_from,
}

-- The parts that an arn is put together from have no colon and no slash.
pub record IsPlainNode (d : DivisionUri) (tail : String) : Type 0 where
  pub partition : Lacks b':' d.partition
  pub master : Lacks b':' d.master_account_id
  pub org_colon : Lacks b':' d.org_id
  pub org_slash : Lacks b'/' d.org_id
  pub tail_colon : Lacks b':' tail
  pub tail_slash : Lacks b'/' tail

node_path_Lacks :
    (d : DivisionUri) (kind tail : String)
    → Lacks b':' kind
    → IsPlainNode d tail
    → Lacks b':' (join "/" (kind ∷ d.org_id ∷ tail ∷ []))
unfolding join
node_path_Lacks d kind tail h p = Lacks-append b':' kind _ h (
    Lacks-append b':' "/" _ (refl, tt)
      (Lacks-append b':' d.org_id _ p.org_colon
        (Lacks-append b':' "/" tail (refl, tt) p.tail_colon)))

-- Reading a node's arn back: the kind, the organization and the last part.
split_node :
    (d : DivisionUri) (kind tail : String)
    → Lacks b':' kind
    → Lacks b'/' kind
    → IsPlainNode d tail
    → split b'/' (join ":" (items_from 5 (split b':' (node_arn d kind tail))))
      ≡ kind ∷ d.org_id ∷ tail ∷ []
unfolding node_arn items_from
split_node d kind tail h k p =
    rw
      (split-join ":" "arn"
        (d.partition
          ∷ "organizations"
          ∷ ""
          ∷ d.master_account_id
          ∷ join "/" (kind ∷ d.org_id ∷ tail ∷ [])
          ∷ [])
        parts)
      (split-join "/" kind (d.org_id ∷ tail ∷ []) (k, (p.org_slash, (p.tail_slash, tt))))
  where
    parts : AllLack b':' (
        "arn"
        ∷ d.partition
        ∷ "organizations"
        ∷ ""
        ∷ d.master_account_id
        ∷ join "/" (kind ∷ d.org_id ∷ tail ∷ [])
        ∷ [])
    parts = (
      (refl, (refl, (refl, tt))),
      (
        p.partition,
        (
          (
            refl,
            (
              refl,
              (
                refl,
                (refl, (refl, (refl, (refl, (refl, (refl, (refl, (refl, (refl, (refl, tt)))))))))),
              ),
            ),
          ),
          (tt, (p.master, (node_path_Lacks d kind tail h p, tt))),
        ),
      ),
    )

join_filled : (p s : String) → is_blank (p <> ("$" <> s)) ≡ false
unfolding is_blank
join_filled String.[] s = rw (nil-append, cons-append) refl
join_filled (String.◌∷◌ c p) s = rw cons-append refl

-- The account that was pushed right above the job's prefix is what `uri_for_path` reads back from the
-- path, whatever was pushed after it (a region, say): its result is the arn of that account. It is
-- assumed that no token holds a `$` and that the account has no `/`.
pub uri_for_path-scope :
    (d : DivisionUri) (job : ImportJob) (account : String) (more : List String)
    → AllLack b'$' (job.path_prefix ∷ (account ∷ more))
    → Lacks b'/' account
    → uri_for_path d
        (path (record { tokens = (scope account (from_import_job job)).tokens ++ more }))
      ≡ ok (node_arn d "account" account)
unfolding uri_for_path path scope from_import_job item_at
uri_for_path-scope d job account more h k =
    rw (filled, split-join "$" job.path_prefix (account ∷ more) h, split_last b'/' account k) refl
  where
    filled : is_blank (join "$" (job.path_prefix ∷ (account ∷ more))) ≡ false
    filled = unfold join in join_filled job.path_prefix (join "$" (account ∷ more))

last-append : (above : List String) (tail : String) → last (above ++ tail ∷ []) ≡ ok tail
unfolding last
last-append [] tail = refl
last-append (p ∷ []) tail = refl
last-append (p ∷ (q ∷ above)) tail = last-append (q ∷ above) tail

last_segment :
    (above : List String) (tail : String)
    → AllLack b'/' (above ++ tail ∷ [])
    → last (split b'/' (join "/" (above ++ tail ∷ []))) ≡ ok tail
last_segment [] tail plain = rw (split-join "/" tail [] plain) (last-append [] tail)
last_segment (p ∷ above) tail plain =
    rw (split-join "/" p (above ++ tail ∷ []) plain) (last-append (p ∷ above) tail)

-- The path that is found is the first whose ids include the one looked for.
path_to-first :
    (id : String) (before after : Dict (List String)) (ids above : List String) (tail : String)
    → All (λ e. any (λ i. str_eq i id) e.1 ≡ false) before
    → any (λ i. str_eq i id) ids ≡ true
    → AllLack b'/' (above ++ tail ∷ [])
    → path_to id (before ++ (join "/" (above ++ tail ∷ []), ids) ∷ after) ≡ ok tail
unfolding path_to
path_to-first id [] after ids above tail none' found plain =
    rw found (last_segment above tail plain)
path_to-first id ((p, others) ∷ before) after ids above tail (fresh, none') found plain =
    rw fresh (path_to-first id before after ids above tail none' found plain)

-- An id is that of a root or of an organizational unit by its first letters.
abbrev pub IsNode : String → String → Type 0
IsNode kind tail =
    ((kind ≡ "root") × (starts_with tail "r-" ≡ true))
    ⊎ ((kind ≡ "ou") × (starts_with tail "r-" ≡ false) × (starts_with tail "ou-" ≡ true))

arn_of_node_lem :
    (d : DivisionUri) (kind tail : String)
    → IsNode kind tail
    → arn_of_node d tail ≡ ok (node_arn d kind tail)
unfolding arn_of_node
arn_of_node_lem d kind tail (inl (is, root)) = rw (is, root) refl
arn_of_node_lem d kind tail (inr (is, other, unit)) = rw (is, other, unit) refl

-- From the arn of an account `uri_for_parent` gives the arn of the node that the account stands under:
-- the last part of the first path of the graph that lists the account, as a root if it begins with `r-`
-- and as an organizational unit if it begins with `ou-`. It is assumed that the parts of the arn have no
-- colon, and the organization, the account and the parts of the path no slash.
pub uri_for_parent-account :
    (d : DivisionUri) (account kind tail : String) (before after : Dict (List String))
    (ids above : List String)
    → IsPlainNode d account
    → d.graph.accounts ≡ before ++ (join "/" (above ++ tail ∷ []), ids) ∷ after
    → All (λ e. any (λ i. str_eq i account) e.1 ≡ false) before
    → any (λ i. str_eq i account) ids ≡ true
    → AllLack b'/' (above ++ tail ∷ [])
    → IsNode kind tail
    → uri_for_parent d (node_arn d "account" account) ≡ ok (node_arn d kind tail)
unfolding uri_for_parent uri_for_segments item_at
uri_for_parent-account d account kind tail before after ids above p graph fresh found plain node =
    rw
      (
        split_node d "account" account (refl, (refl, (refl, (refl, (refl, (refl, (refl, tt)))))))
            (refl, (refl, (refl, (refl, (refl, (refl, (refl, tt))))))) p,
        graph,
        path_to-first account before after ids above tail fresh found plain,
      )
      (arn_of_node_lem d kind tail node)

-- From the arn of an organizational unit `uri_for_parent` gives the arn of the node that the first path
-- which lists the unit ends in.
pub uri_for_parent-ou :
    (d : DivisionUri) (unit kind tail : String) (before after : Dict (List String))
    (ids above : List String)
    → IsPlainNode d unit
    → d.graph.organizational_units ≡ before ++ (join "/" (above ++ tail ∷ []), ids) ∷ after
    → All (λ e. any (λ i. str_eq i unit) e.1 ≡ false) before
    → any (λ i. str_eq i unit) ids ≡ true
    → AllLack b'/' (above ++ tail ∷ [])
    → IsNode kind tail
    → uri_for_parent d (node_arn d "ou" unit) ≡ ok (node_arn d kind tail)
unfolding uri_for_parent uri_for_segments item_at
uri_for_parent-ou d unit kind tail before after ids above p graph fresh found plain node =
    rw
      (
        split_node d "ou" unit (refl, (refl, tt)) (refl, (refl, tt)) p,
        graph,
        path_to-first unit before after ids above tail fresh found plain,
      )
      (arn_of_node_lem d kind tail node)
