-- ===== src/Index/Again.antt =====
-- pkg/index/proto_index.go, `AddSymbol`: the same call twice.
use askl_golang_indexer.Prelude.{
  ℕ, ◌≡◌, refl, ◌∙◌, ap, sym, subst, some, arith, length, get_elem?, lookup, nat_eq, text_eq,
}
use askl_golang_indexer.Proto.{Object}
use askl_golang_indexer.Index.State.{ProtoIndex, symbol_key_eq, file_name_key_eq, instance_key_eq}
use askl_golang_indexer.Index.Files.{Outcome, done, failed, file_of}
use askl_golang_indexer.Index.Symbols.{
  NewSymbol, symbol_key, check_symbol, symbol_for, symbol_or_new, name_in_file, name_at, clamp,
  key_of, instance_or_new, instance_for, record_symbol, record_checked, add_symbol,
}
use askl_golang_indexer.Index.Writes.{
  file_of_parts, file_of_whole, check_same, symbol_or_new-again, symbol_or_new-Keeps, name_at-Keeps,
  name_at-again, instance_or_new-Made,
}

symbol_known :
    (s : NewSymbol) (id : ℕ) (j : ProtoIndex)
    → lookup (symbol_key s) j.symbol_by_key ≡ some id
    → symbol_for s j ≡ (id, j)
unfolding symbol_for symbol_or_new
symbol_known s id j e = ap (λ q. symbol_or_new s q j) e

instance_known :
    (s : NewSymbol) (id iid p : ℕ) (o : Object) (j : ProtoIndex)
    → lookup (key_of s id) j.instance_id_by_key ≡ some iid
    → instance_for s id p o j ≡ (iid, j)
unfolding instance_for instance_or_new
instance_known s id iid p o j e = ap (λ q. instance_or_new s id p o q j) e

-- A call for what is known already, step by step.
record_known :
    (s : NewSymbol) (id iid p limit : ℕ) (o : Object) (j : ProtoIndex)
    → symbol_for s j ≡ (id, j)
    → name_in_file s id j ≡ j
    → length o.content ≡ limit
    → lookup (key_of (clamp s limit) id) j.instance_id_by_key ≡ some iid
    → record_symbol s p o j ≡ ((id, iid), j)
unfolding record_symbol
record_known s id iid p limit o j a b c d =
    ap (λ found. made_from found) a
    ∙ ap (λ k. made_at k) b
    ∙ ap (λ n. made_to n) c
    ∙ ap (λ out. ((id, out.0), out.1)) (instance_known (clamp s limit) id iid p o j d)
  where
    made_from : ℕ × ProtoIndex → (ℕ × ℕ) × ProtoIndex
    made_from found =
        let made =
          instance_for (clamp s (length o.content)) found.0 p o (name_in_file s found.0 found.1) in
        ((found.0, made.0), made.1)

    made_at : ProtoIndex → (ℕ × ℕ) × ProtoIndex
    made_at k =
        let made = instance_for (clamp s (length o.content)) id p o k in ((id, made.0), made.1)

    made_to : ℕ → (ℕ × ℕ) × ProtoIndex
    made_to n = let made = instance_for (clamp s n) id p o j in ((id, made.0), made.1)

again_at :
    (s : NewSymbol) (i : ProtoIndex) (p : ℕ) (o : Object)
    → check_symbol s i ≡ done (p, o)
    → file_of i s.file_id ≡ some (p, o)
    → (o' : Object) × (check_symbol s (record_symbol s p o i).1 ≡ done (p, o'))
      × (record_symbol s p o' (record_symbol s p o i).1 ≡ record_symbol s p o i)
unfolding record_symbol symbol_for name_in_file instance_for
again_at s i p o c f =
    let (at_id, at_p) = file_of_parts i s.file_id p o f in
    let q = lookup (symbol_key s) i.symbol_by_key in
    let a = symbol_or_new s q i in
    let (ka, oa) = symbol_or_new-Keeps s q i in
    let path = lookup s.file_id a.1.file_path_by_id in
    let b = name_at s a.0 path a.1 in
    let (kb, ob, sb) = name_at-Keeps s a.0 path a.1 in
    let t = clamp s (length o.content) in
    let out = instance_or_new t a.0 p o (lookup (key_of t a.0) b.instance_id_by_key) b in
    let made =
      instance_or_new-Made t a.0 p o (lookup (key_of t a.0) b.instance_id_by_key) b refl
        (subst (λ os. get_elem? os p ≡ some o) (sym (ob ∙ oa)) at_p) in
    let (o', at_p', same) = made.object in
    let f' : file_of out.1 s.file_id ≡ some (p, o') =
      file_of_whole out.1 s.file_id p o'
        (ap (λ m. lookup s.file_id m) (made.keeps.files ∙ kb.files ∙ ka.files) ∙ at_id) at_p' in
    (
      o',
      (check_same s i out.1 p o o' (made.keeps.modules ∙ kb.modules ∙ ka.modules) f' c).1,
      record_known s a.0 out.0 p (length o.content) o' out.1
          (symbol_known s a.0 out.1
            (ap (λ m. lookup (symbol_key s) m) (made.keys ∙ sb) ∙ symbol_or_new-again s q i refl))
          (ap (λ m. name_at s a.0 (lookup s.file_id m) out.1) (made.keeps.paths ∙ kb.paths)
            ∙ name_at-again s a.0 path a.1 out.1 made.names)
          (ap length same) made.found,
    )

file_of_check :
    (s : NewSymbol) (i : ProtoIndex) (p : ℕ) (o : Object)
    → check_symbol s i ≡ done (p, o)
    → file_of i s.file_id ≡ some (p, o)
unfolding check_symbol
file_of_check s i p o c = ground arith

record_checked_again :
    (s : NewSymbol) (i j : ProtoIndex) (ids : ℕ × ℕ) (found : Outcome (ℕ × Object))
    → check_symbol s i ≡ found
    → record_checked s found i ≡ (done ids, j)
    → add_symbol s j ≡ (done ids, j)
unfolding record_checked add_symbol
record_checked_again s i j ids (failed e) c h = absurd (ground arith)
record_checked_again s i j ids (done (p, o)) c h =
    let (o', again, same) = again_at s i p o c (file_of_check s i p o c) in
    subst (λ (r : Outcome (ℕ × ℕ) × ProtoIndex). add_symbol s r.1 ≡ r) h
      (ap (λ found. record_checked s found (record_symbol s p o i).1) again
        ∙ ap (λ (out : (ℕ × ℕ) × ProtoIndex). (done out.0, out.1)) same)

-- After a call that succeeds, the same call again gives the same symbol and the same instance, and
-- changes nothing in the index.
pub add_symbol_again :
    (s : NewSymbol) (i j : ProtoIndex) (ids : ℕ × ℕ)
    → add_symbol s i ≡ (done ids, j)
    → add_symbol s j ≡ (done ids, j)
unfolding add_symbol
add_symbol_again s i j ids h = record_checked_again s i j ids (check_symbol s i) refl h
