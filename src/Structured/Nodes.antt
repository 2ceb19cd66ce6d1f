-- ===== src/Structured/Nodes.antt =====
-- The nodes of Surge configurations and of documents, and of a structured subscription as a whole.
use easysub.Prelude.{
  OfSome, OfSome-bind, OfSome-any, ℕ, ◌≡◌, ◌∙◌, ◌≤◌, inl, inr, Bool, true, false, Option, none,
  some, List, [], ◌∷◌, arith, All, filter_map, push_some, if◌then◌else◌, Option-cases,
}
use easysub.Text.{Str, codes, split_once, trim, eq_ignore_ascii_case, to_ascii_lowercase}
use easysub.Text.Decimal.{u16_max}
use easysub.Model.{ProxyKind, Proxy}
use easysub.Parser.Fields.{parse_u16}
use easysub.Structured.Netch.{kind_named}
use easysub.Structured.Surge.{
  surge_kinds, surge_option, surge_node, surge_fields, split_csv, move_username, parse_surge_proxy,
  surge_line, section_of, is_skipped_line, surge_lines,
}
use easysub.Structured.Endpoints.{InGroup, OfSome-endpoint, parse_u16-le}

-- Two nodes that agree in group, endpoint, kind, name and the two general options.
abbrev pub SamePlace : Proxy → Proxy → Type 0
SamePlace p q =
    (q.group_id ≡ p.group_id)
    × (q.server ≡ p.server)
    × (q.port ≡ p.port)
    × (q.kind ≡ p.kind)
    × (q.name ≡ p.name)
    × (q.udp ≡ p.udp)
    × (q.tcp_fast_open ≡ p.tcp_fast_open)

pub SamePlace-trans : (p q r : Proxy) → SamePlace p q → SamePlace q r → SamePlace p r
SamePlace-trans p q r h k =
    (k.0 ∙ h.0, k.1 ∙ h.1, k.2 ∙ h.2, k.3 ∙ h.3, k.4 ∙ h.4, k.5 ∙ h.5, k.6 ∙ h.6)

move_username-place :
    (kind : ProxyKind) (p : Proxy)
    → let q = move_username kind p in
      (q.group_id ≡ p.group_id) × (q.server ≡ p.server) × (q.port ≡ p.port)
unfolding move_username
move_username-place kind p = (ground arith, ground arith, ground arith)

surge_fields-InGroup :
    (name : Str) (g : ℕ) (fields : List Str) → OfSome (InGroup g) (surge_fields name g fields)
unfolding surge_fields surge_node
surge_fields-InGroup name g (type_name ∷ server ∷ port_text ∷ rest) =
    OfSome-any (InGroup g) (kind_named surge_kinds (to_ascii_lowercase type_name)) _ (λ kind.
      OfSome-bind (λ n. n ≤ u16_max) (InGroup g) (parse_u16 port_text) _ (parse_u16-le port_text)
        (λ port le.
          OfSome-endpoint g server port
            (surge_node (filter_map surge_option rest) name g kind server port) le
            (move_username-place kind _)))
surge_fields-InGroup name g fields = tt

surge_line-InGroup : (g : ℕ) (line : Str) → OfSome (InGroup g) (surge_line g line)
unfolding surge_line parse_surge_proxy
surge_line-InGroup g line =
    OfSome-any (InGroup g) (split_once (codes "=") line) _
      (λ halves. surge_fields-InGroup (trim halves.0) g (split_csv (trim halves.1)))

pub All-push_some {ℓ} :
    {A : Type ℓ} (Q : A → Type 0) (o : Option A) (xs : List A)
    → OfSome Q o
    → All Q xs
    → All Q (push_some o xs)
All-push_some Q none xs h k = k
All-push_some Q (some a) xs h k = (h, k)

All-if {ℓ} :
    {A : Type ℓ} (Q : A → Type 0) (b : Bool) (xs ys : List A)
    → All Q xs
    → All Q ys
    → All Q (if b then xs else ys)
All-if Q true xs ys h k = h
All-if Q false xs ys h k = k

pub surge_lines-InGroup :
    (g : ℕ) (in_section : Bool) (ls : List Str) → All (InGroup g) (surge_lines g in_section ls)
unfolding surge_lines
surge_lines-InGroup g in_section [] = tt
surge_lines-InGroup g in_section (raw ∷ rest) =
    let stay = surge_lines-InGroup g in_section rest in
    elim (Option-cases (section_of (trim raw))) [
      | inl e ↦
          rw (e, surge_lines)
            (All-if (InGroup g) (is_skipped_line (trim raw)) (surge_lines g in_section rest) _ stay
              (All-if (InGroup g) in_section (push_some (surge_line g (trim raw)) _) _
                (All-push_some (InGroup g) (surge_line g (trim raw)) (surge_lines g in_section rest)
                  (surge_line-InGroup g (trim raw)) stay)
                stay))
      | inr (title, e) ↦
          rw (e, surge_lines)
            (All-if (InGroup g) (is_skipped_line (trim raw)) (surge_lines g in_section rest) _ stay
              (surge_lines-InGroup g (eq_ignore_ascii_case title (codes "proxy")) rest))
    ]
