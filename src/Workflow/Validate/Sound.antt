-- ===== src/Workflow/Validate/Sound.antt =====
-- What `Validate` accepts: the structure of the documents that the rest of the engine relies on.
use text.Mathlib.TextEquality.{eq_iff}
use text.Mathlib.TextPositions.{eq_refl}
use mathlib.Core.Bool.{false≢true}
use fishyume.Base.{
  IsDistinct, ◌≡◌, refl, sym, subst, ◌∙◌, String, Bool, true, false, not, List, [], ◌∷◌, ◌++◌,
  Outcome, ok, err, reject_if, reject_if-eq-ok, map_err, >>=-eq-ok, >>-eq-ok, arith, contains,
  contains-append, count, str_eq, All, All-contains, Bool-cases, inl, inr,
}
use fishyume.Base.Assoc.{lookup, keys}
use fishyume.Base.Counts.{contains→count, count→contains}
use fishyume.Base.Text.{name_matches}
use fishyume.Workflow.Model.{Document, Node, node_of, or_zero}
use fishyume.Workflow.Graph.{topological_order}
use fishyume.Workflow.Graph.Order.{ids, dependencies_of, IsOrdered, topological_order_sound}
use fishyume.Workflow.Ancestors.Reachable.{Reaches, Reaches-closed, no_dependencies, IsIncluded}
use fishyume.Workflow.Validate.{
  Validated, graph, node_context_needs_version, invalid_node_id, missing_dependency,
  self_dependency, repeated_dependency, validate_dependencies, validate_node,
  validate_references_of, each_node, validate_header, validate,
}

pub map_err-eq-ok {ℓ κ μ} :
    {E : Type ℓ} {F : Type κ} {A : Type μ} (f : E → F) (m : Outcome E A) {a : A}
    → map_err f m ≡ ok a
    → m ≡ ok a
map_err-eq-ok f (ok b) h = ground arith
map_err-eq-ok f (err e) h = absurd (cc)

-- The loop stops at the first node that its body refuses.
pub each_node-lookup :
    (check : String → Node → Validated) (nodes : List (String × Node)) (id : String)
    → each_node check nodes ≡ ok tt
    → contains (keys nodes) id ≡ true
    → check id (or_zero (lookup id nodes)) ≡ ok tt
unfolding each_node contains lookup
each_node-lookup check [] id h k = absurd (false≢true k)
each_node-lookup check ((x, node) ∷ nodes) id h k =
    let (first, rest) = >>-eq-ok (check x node) (each_node check nodes) h in
    elim (Bool-cases (str_eq x id)) [
      | inl same ↦ rw same (subst (λ y. check y node ≡ ok tt) ((eq_iff x id).0 same) first)
      | inr other ↦ rw other (each_node-lookup check nodes id rest (ground arith))
    ]

-- A dependency is another node of the document.
abbrev pub IsDependency : Document → (id dependency : String) → Type 0
IsDependency doc id d = (contains (ids doc) d ≡ true) × (str_eq d id ≡ false)

dependencies-fresh :
    (doc : Document) (id : String) (seen ds : List String) (x : String)
    → validate_dependencies doc id seen ds ≡ ok tt
    → contains seen x ≡ true
    → contains ds x ≡ false
unfolding validate_dependencies contains
dependencies-fresh doc id seen [] x h k = refl
dependencies-fresh doc id seen (d ∷ ds) x h k =
    let (known, h1) =
      >>-eq-ok (reject_if (not (contains (ids doc) d)) (missing_dependency id d)) _ h in
    let (other, h2) = >>-eq-ok (reject_if (str_eq d id) (self_dependency id d)) _ h1 in
    let (new, h3) = >>-eq-ok (reject_if (contains seen d) (repeated_dependency id d)) _ h2 in
    ground (
      arith,
      dependencies-fresh doc id (d ∷ seen) ds x h3,
      reject_if-eq-ok (contains seen d) (repeated_dependency id d) new,
      eq_iff d x,
    )

dependencies_sound :
    (doc : Document) (id : String) (seen ds : List String)
    → validate_dependencies doc id seen ds ≡ ok tt
    → All (IsDependency doc id) ds × IsDistinct ds
unfolding validate_dependencies contains
dependencies_sound doc id seen [] h = (tt, tt)
dependencies_sound doc id seen (d ∷ ds) h =
    let (known, h1) =
      >>-eq-ok (reject_if (not (contains (ids doc) d)) (missing_dependency id d)) _ h in
    let (other, h2) = >>-eq-ok (reject_if (str_eq d id) (self_dependency id d)) _ h1 in
    let (new, h3) = >>-eq-ok (reject_if (contains seen d) (repeated_dependency id d)) _ h2 in
    let (rest, distinct) = dependencies_sound doc id (d ∷ seen) ds h3 in
    (
      (
        (
          ground
              (arith, reject_if-eq-ok (not (contains (ids doc) d)) (missing_dependency id d) known),
          reject_if-eq-ok (str_eq d id) (self_dependency id d) other,
        ),
        rest,
      ),
      (dependencies-fresh doc id (d ∷ seen) ds d h3 (ground (arith, eq_refl d)), distinct),
    )

-- A set of nodes that holds the dependencies of each of its nodes.
abbrev IsClosed : Document → List String → Type 0
IsClosed doc out = (x : String) → contains out x ≡ true → IsIncluded (dependencies_of doc x) out

-- What stands in the order before the first occurrence of a node.
ordered-before :
    (doc : Document) (seen xs : List String) (x : String)
    → IsClosed doc seen
    → contains seen x ≡ false
    → IsOrdered doc seen xs
    → contains xs x ≡ true
    → (out : List String) × IsClosed doc out
      × IsIncluded (dependencies_of doc x) out
      × (contains out x ≡ false)
unfolding contains
ordered-before doc seen [] x closed new h k = absurd (false≢true k)
ordered-before doc seen (y ∷ ys) x closed new h k =
    let below : IsIncluded (dependencies_of doc y) seen =
      λ d found. All-contains (λ e. contains seen e ≡ true) (dependencies_of doc y) d h.0 found in
    elim (Bool-cases (str_eq y x)) [
      | inl same ↦ (
        seen,
        closed,
        subst (λ z. IsIncluded (dependencies_of doc z) seen) ((eq_iff y x).0 same) below,
        new,
      )
      | inr other ↦
          ordered-before doc (seen ++ y ∷ []) ys x
            (λ z found d below_z. rw contains-append (elim (Bool-cases (contains seen z)) [
              | inl old ↦ rw (closed z old d below_z) refl
              | inr fresh ↦
                  let same : str_eq y z ≡ true = ground (arith, contains-append seen (y ∷ []) z) in
                  rw
                    (below d (
                      subst (λ w. contains (dependencies_of doc w) d ≡ true)
                        (sym ((eq_iff y z).0 same)) below_z))
                    refl
            ]))
            (ground (arith, contains-append seen (y ∷ []) x)) h.1 (ground arith)
    ]

-- In a document with an order, no chain of dependencies leads from a node to itself.
pub ordered-acyclic :
    (doc : Document) (order : List String)
    → ((x : String) → count x order ≡ count x (ids doc))
    → IsOrdered doc [] order
    → (x : String) → ¬ (Reaches doc x x)
unfolding contains
ordered-acyclic doc order whole ordered x chain = elim (Bool-cases (contains (ids doc) x)) [
  | inr unknown ↦ false≢true (
      Reaches-closed doc [] (λ y h. absurd (false≢true h)) x x
        (subst (λ ds. IsIncluded ds []) (sym (no_dependencies doc x unknown)) (λ y h. h)) chain)
  | inl known ↦
      let placed : contains order x ≡ true =
        count→contains x order (ground (arith, whole x, contains→count x (ids doc))) in
      let (out, closed, below, new) =
        ordered-before doc [] order x (λ y h. absurd (false≢true h)) refl ordered placed in
      false≢true (sym new ∙ Reaches-closed doc out closed x x below chain)
]

-- What `Validate` promises to the rest of the engine.
pub record IsValidDocument (doc : Document) (order : List String) : Type 0 where
  pub complete : (x : String) → count x order ≡ count x (ids doc)
  pub ordered : IsOrdered doc [] order
  pub acyclic : (x : String) → ¬ (Reaches doc x x)
  pub named : (x : String) → contains (ids doc) x ≡ true → name_matches 63 x ≡ true
  pub dependent :
      (x : String)
      → contains (ids doc) x ≡ true
      → All (IsDependency doc x) (dependencies_of doc x) × IsDistinct (dependencies_of doc x)

module _ (is_absolute : String → Bool) (clean to_slash : String → String) where
  node_sound :
      (doc : Document) (id : String) (node : Node)
      → validate_node is_absolute clean to_slash doc id node ≡ ok tt
      → (name_matches 63 id ≡ true)
        × All (IsDependency doc id) node.depends_on
        × IsDistinct node.depends_on
  unfolding validate_node
  node_sound doc id node h =
      let (versioned, h1) = >>-eq-ok (reject_if _ (node_context_needs_version id)) _ h in
      let (named, h2) = >>-eq-ok (reject_if (not (name_matches 63 id)) (invalid_node_id id)) _ h1 in
      let (listed, h3) = >>-eq-ok (validate_dependencies doc id [] node.depends_on) _ h2 in
      (
        ground (arith, reject_if-eq-ok (not (name_matches 63 id)) (invalid_node_id id) named),
        (dependencies_sound doc id [] node.depends_on listed).0,
        (dependencies_sound doc id [] node.depends_on listed).1,
      )

  -- The passes of `Validate`, when it accepts.
  pub validate-passes :
      (doc : Document) (order : List String)
      → validate is_absolute clean to_slash doc ≡ ok order
      → (each_node (validate_node is_absolute clean to_slash doc) doc.nodes ≡ ok tt)
        × (topological_order doc ≡ ok order)
        × (each_node (validate_references_of doc) doc.nodes ≡ ok tt)
  unfolding validate
  validate-passes doc order h =
      let (header, h1) = >>-eq-ok (validate_header doc) _ h in
      let (nodes, h2) =
        >>-eq-ok (each_node (validate_node is_absolute clean to_slash doc) doc.nodes) _ h1 in
      let (found, sorted, h3) = >>=-eq-ok (map_err graph (topological_order doc)) _ h2 in
      let (templates, last) = >>-eq-ok (each_node (validate_references_of doc) doc.nodes) _ h3 in
      let ends = map_err-eq-ok graph (topological_order doc) sorted in (nodes, cc, templates)

  -- A document with distinct node IDs that `Validate` accepts has the order that it returns, which
  -- holds each node once and behind its dependencies; no chain of dependencies leads from a node to
  -- itself; and each node has a name of the ID pattern and names as dependencies other nodes of the
  -- document, each once.
  pub validate_sound :
      (doc : Document) (order : List String)
      → IsDistinct (ids doc)
      → validate is_absolute clean to_slash doc ≡ ok order
      → IsValidDocument doc order
  unfolding node_of
  validate_sound doc order distinct h =
      let (nodes, sorted, templates) = validate-passes doc order h in
      let (whole, ordered) = topological_order_sound doc order distinct sorted in
      let checked : (x : String) → contains (ids doc) x ≡ true → _ = λ x known.
        node_sound doc x (node_of doc x) (
          each_node-lookup (validate_node is_absolute clean to_slash doc) doc.nodes x nodes
            known) in
      record {
        complete = whole;
        ordered = ordered;
        acyclic = ordered-acyclic doc order whole ordered;
        named = λ x known. (checked x known).0;
        dependent = λ x known. ((checked x known).1, (checked x known).2);
      }
