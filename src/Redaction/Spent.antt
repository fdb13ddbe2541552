-- ===== src/Redaction/Spent.antt =====
-- What one node and one text take from the budget of `_validate`.
use tesserix_mcp_runtime.Base.{
  ℕ, ◌+◌, ◌≤◌, Bool, true, false, String, ltb, if◌then◌else◌, ◌≡◌, refl, subst, arith,
}
use tesserix_mcp_runtime.Base.Text.{codes}
use tesserix_mcp_runtime.Contracts.Failure.{Result, ok, err, ◌>>=◌}
use tesserix_mcp_runtime.Json.Text.{utf8_length}
use tesserix_mcp_runtime.Redaction.{
  RedactionLimits, InputBudget, redaction_error, consume_text, consume_node,
}

module _ (casefold redacted : String → String) (limits : RedactionLimits) where
  -- a budget after `n` more nodes and `t` more bytes, within the limits if the one before is
  pub record Spent (b c : InputBudget) (n t : ℕ) : Type 0 where
    pub nodes : c.nodes ≡ b.nodes + n
    pub bytes : c.text_bytes ≡ b.text_bytes + t
    pub few_nodes : b.nodes ≤ limits.max_nodes → c.nodes ≤ limits.max_nodes
    pub few_bytes : b.text_bytes ≤ limits.max_text_bytes → c.text_bytes ≤ limits.max_text_bytes

  pub Spent-none : (b : InputBudget) → Spent b b 0 0
  Spent-none b = record {
    nodes = omega arith;
    bytes = omega arith;
    few_nodes = λ h. h;
    few_bytes = λ h. h;
  }

  pub Spent-both :
      (b c d : InputBudget) (n t m u nodes bytes : ℕ)
      → Spent b c n t
      → Spent c d m u
      → nodes ≡ n + m
      → bytes ≡ t + u
      → Spent b d nodes bytes
  Spent-both b c d n t m u nodes bytes p q i j = record {
    nodes = omega (arith, p.nodes, q.nodes, i);
    bytes = omega (arith, p.bytes, q.bytes, j);
    few_nodes = λ h. q.few_nodes (p.few_nodes h);
    few_bytes = λ h. q.few_bytes (p.few_bytes h);
  }

  pub then_ok :
      {Done : Type 0}
      → (r : Result InputBudget) (f : InputBudget → Result Done) (c : Done) (P : Type 0)
      → (r >>= f) ≡ ok c
      → ((b : InputBudget) → r ≡ ok b → f b ≡ ok c → P)
      → P
  then_ok (ok b) f c P h k = k b refl h
  then_ok (err e) f c P h k = ground (arith, h)

  pub consume_text-Spent :
      (s : String) (b c : InputBudget)
      → consume_text casefold redacted limits s b ≡ ok c
      → Spent b c 0 (utf8_length (codes s))
  unfolding consume_text
  consume_text-Spent s b c h =
      let used = b.text_bytes + utf8_length (codes s) in go (ltb limits.max_text_bytes used) refl h
    where
      go :
          (over : Bool)
          → ltb limits.max_text_bytes (b.text_bytes + utf8_length (codes s)) ≡ over
          → (if over
              then err redaction_error
              else ok (record b { text_bytes = b.text_bytes + utf8_length (codes s) }))
            ≡ ok c
          → Spent b c 0 (utf8_length (codes s))
      go true over i = ground (arith, i)
      go false room i =
          let next : InputBudget = record b { text_bytes = b.text_bytes + utf8_length (codes s) } in
          let e : next ≡ c = ground (arith, i) in
          subst (λ x. Spent b x 0 (utf8_length (codes s))) e
            (record {
              nodes = omega arith;
              bytes = refl;
              few_nodes = λ k. k;
              few_bytes = λ k. ground (arith, room);
            })

  pub consume_node-Spent :
      (depth : ℕ) (b c : InputBudget)
      → consume_node casefold redacted limits depth b ≡ ok c
      → Spent b c 1 0 × (depth ≤ limits.max_depth)
  unfolding consume_node
  consume_node-Spent depth b c h =
      go (ltb limits.max_depth depth) (ltb limits.max_nodes (b.nodes + 1)) refl refl h
    where
      go :
          (deep over : Bool)
          → ltb limits.max_depth depth ≡ deep
          → ltb limits.max_nodes (b.nodes + 1) ≡ over
          → (if deep
              then err redaction_error
              else if over
              then err redaction_error
              else ok (record b { nodes = b.nodes + 1 }))
            ≡ ok c
          → Spent b c 1 0 × (depth ≤ limits.max_depth)
      go true over j k i = ground (arith, i)
      go false true j k i = ground (arith, i)
      go false false shallow room i =
          let next : InputBudget = record b { nodes = b.nodes + 1 } in
          let e : next ≡ c = ground (arith, i) in
          (
            subst (λ x. Spent b x 1 0) e
                (record {
                  nodes = refl;
                  bytes = omega arith;
                  few_nodes = λ k. ground (arith, room);
                  few_bytes = λ k. k;
                }),
            ground (arith, shallow),
          )
