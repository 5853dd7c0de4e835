-- ===== src/Replication/Rdb/Ends/Values.antt =====
-- The values of a snapshot: reading one ends, and does not make the input longer.
use redis_inmemory_replica.Base.{
  ℕ, zero, suc, Bool, true, false, inl, inr, Bool-cases, List, [], ◌∷◌, ◌++◌, Bytes, Result, ok,
  err, Option, none, some, length, ltb, ◌==◌,
}
use redis_inmemory_replica.Stream.{read_full}
use redis_inmemory_replica.Storage.Map.{Map, insert, bytes_key}
use redis_inmemory_replica.Replication.Handler.{RdbValue}
use redis_inmemory_replica.Replication.Rdb.{
  VersionStrategy, RdbError, Input, pure, fail, stream, wrap, ◌>>=◌, rescue, unsupported_type,
  skip_type_failed, skip_length_failed, skip_data_failed,
}
use redis_inmemory_replica.Replication.Rdb.Strings.{read_length, read_string}
use redis_inmemory_replica.Replication.Rdb.Values.{
  read_list, read_set, read_hash, node, read_nodes, read_quicklist, skip_strings, skip_stream_data,
  skip_string, discard_data, skip_encoded, skip_unknown, lenient, skip_unsupported_type, read_value,
  is_stream_type, type_string, type_list, type_set, type_hash, type_list_quicklist,
}
use redis_inmemory_replica.Replication.Rdb.Ends.{
  Fine, Ends, Ends-pure, Ends-fail, Ends-if, Ends-wrap, Ends-rescue, Ends-bind, Ends-stream,
  Short-read_full, Ends-read_length, Ends-read_string,
}

module _ (strategy : VersionStrategy) where
  Ends-read_list : (n : ℕ) (l : List Bytes) → Ends (read_list strategy n l)
  unfolding read_list
  Ends-read_list zero l = Ends-pure l
  Ends-read_list (suc n) l =
      Ends-bind (read_string strategy) _ (Ends-read_string strategy)
        (λ x. Ends-read_list n (l ++ x ∷ []))

  Ends-read_set : (n : ℕ) (m : Map Bytes (Unit {0})) → Ends (read_set strategy n m)
  unfolding read_set
  Ends-read_set zero m = Ends-pure m
  Ends-read_set (suc n) m =
      Ends-bind (read_string strategy) _ (Ends-read_string strategy)
        (λ x. Ends-read_set n (insert x tt m))

  Ends-read_hash : (n : ℕ) (m : Map Bytes Bytes) → Ends (read_hash strategy n m)
  unfolding read_hash
  Ends-read_hash zero m = Ends-pure m
  Ends-read_hash (suc n) m = Ends-bind (read_string strategy) _ (Ends-read_string strategy) (λ f.
      Ends-bind (read_string strategy) _ (Ends-read_string strategy)
        (λ v. Ends-read_hash n (insert f v m)))

  Ends-node : Ends (node strategy)
  Ends-node =
      Ends-rescue strategy (do text ← read_string strategy; pure (text ∷ [])) (pure [])
        (Ends-bind (read_string strategy) _ (Ends-read_string strategy) (λ t. Ends-pure _))
        (Ends-pure [])

  Ends-read_nodes : (n : ℕ) (l : List Bytes) → Ends (read_nodes strategy n l)
  unfolding read_nodes
  Ends-read_nodes zero l = Ends-pure l
  Ends-read_nodes (suc n) l =
      Ends-bind (node strategy) _ Ends-node (λ x. Ends-read_nodes n (l ++ x))

  Ends-read_quicklist : Ends (read_quicklist strategy)
  unfolding read_quicklist
  Ends-read_quicklist =
      Ends-bind read_length _ Ends-read_length
        (λ n. Ends-bind (read_nodes strategy n []) _ (Ends-read_nodes n []) (λ l. Ends-pure _))

  skipped : Ends (do text ← read_string strategy; pure {A = Unit {0}} tt)
  skipped = Ends-bind (read_string strategy) _ (Ends-read_string strategy) (λ t. Ends-pure tt)

  Ends-skip_strings : (n : ℕ) → Ends (skip_strings strategy n)
  unfolding skip_strings
  Ends-skip_strings zero = Ends-pure tt
  Ends-skip_strings (suc n) =
      Ends-bind (rescue strategy (do text ← read_string strategy; pure tt) (pure tt)) _
        (Ends-rescue strategy _ (pure tt) skipped (Ends-pure tt)) (λ u. Ends-skip_strings n)

  Ends-skip_stream_data : Ends (skip_stream_data strategy)
  unfolding skip_stream_data
  Ends-skip_stream_data =
      Ends-bind read_length _ Ends-read_length
        (λ n. Ends-bind (skip_strings strategy n) _ (Ends-skip_strings n) (λ u. Ends-pure none))

  Ends-skip_string : (t : ℕ) → Ends (skip_string strategy t)
  Ends-skip_string t =
      Ends-bind
        (rescue strategy (wrap (skip_type_failed t) (do text ← read_string strategy; pure tt))
          (pure tt))
        _
        (Ends-rescue strategy _ (pure tt) (Ends-wrap (skip_type_failed t) _ (λ e. tt) skipped)
          (Ends-pure tt))
        (λ u. Ends-pure none)

  Ends-discard_data : (t : ℕ) (o : Option ℕ) → Ends (discard_data strategy t o)
  Ends-discard_data t none = Ends-pure none
  Ends-discard_data t (some n) =
      Ends-bind
        (rescue strategy (do text ← stream (skip_data_failed t) (read_full n); pure tt) (pure tt)) _
        (Ends-rescue strategy _ (pure tt)
          (Ends-bind (stream (skip_data_failed t) (read_full n)) _
            (Ends-stream (skip_data_failed t) (read_full n) (λ e. tt) (Short-read_full n))
            (λ b. Ends-pure tt))
          (Ends-pure tt))
        (λ u. Ends-pure none)

  Ends-skip_encoded : (t : ℕ) → Ends (skip_encoded strategy t)
  Ends-skip_encoded t =
      Ends-bind
        (rescue strategy (wrap (skip_length_failed t) (do n ← read_length; pure (some n)))
          (pure none))
        _
        (Ends-rescue strategy _ (pure none)
          (Ends-wrap (skip_length_failed t) _ (λ e. tt)
            (Ends-bind read_length _ Ends-read_length (λ n. Ends-pure (some n))))
          (Ends-pure none))
        (λ o. Ends-discard_data t o)

  lenient-Fine :
      (strict : Bool) (t n : ℕ) (r : Result RdbError (Option RdbValue) × Input)
      → Fine n r
      → Fine n (lenient strategy strict t r)
  lenient-Fine strict t n (ok v, (k, s)) h = h
  lenient-Fine true t n (err e, (k, s)) h = h
  lenient-Fine false t n (err e, (k, s)) h = h.0

  Ends-skip_unsupported_type : (t : ℕ) → Ends (skip_unsupported_type strategy t)
  unfolding skip_unsupported_type
  Ends-skip_unsupported_type t = record {
    at = λ k s. elim (Bool-cases (ltb t 16)) [
      | inl on ↦ rw on ((Ends-skip_string t).at k s)
      | inr off ↦ elim (Bool-cases (ltb t 32)) [
        | inl on ↦ rw (off, on) ((Ends-skip_encoded t).at k s)
        | inr other ↦
            rw (off, other)
              (lenient-Fine strategy.requires_strict_parsing t (length s)
                (skip_unknown strategy t (k, s))
                ((Ends-rescue strategy (fail (unsupported_type t)) (pure none)
                    (Ends-fail (unsupported_type t) tt) (Ends-pure none)).at
                  k s))
      ]
    ];
  }

  pub Ends-read_value : (t : ℕ) → Ends (read_value strategy t)
  unfolding read_value
  Ends-read_value t =
      Ends-if (t == type_string) _ _
        (Ends-bind (read_string strategy) _ (Ends-read_string strategy) (λ x. Ends-pure _))
        (Ends-if (t == type_list) _ _
          (Ends-bind read_length _ Ends-read_length
            (λ n. Ends-bind (read_list strategy n []) _ (Ends-read_list n []) (λ l. Ends-pure _)))
          (Ends-if (t == type_set) _ _
            (Ends-bind read_length _ Ends-read_length
              (λ n. Ends-bind (read_set strategy n []) _ (Ends-read_set n []) (λ l. Ends-pure _)))
            (Ends-if (t == type_hash) _ _
              (Ends-bind read_length _ Ends-read_length (λ n.
                Ends-bind (read_hash strategy n []) _ (Ends-read_hash n []) (λ l. Ends-pure _)))
              (Ends-if (t == type_list_quicklist) _ _
                (Ends-bind (read_quicklist strategy) _ Ends-read_quicklist (λ l. Ends-pure _))
                (Ends-if (is_stream_type t) _ _ Ends-skip_stream_data
                  (Ends-skip_unsupported_type t))))))
