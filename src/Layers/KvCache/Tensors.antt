-- ===== src/Layers/KvCache/Tensors.antt =====
-- layers/kv_cache.py: what is relied on of torch's operations on tensors in row-major order.
use shark_turbine.Common.{ℕ, ◌+◌, ◌*◌, ◌<◌, ◌≡◌, ◌≢◌, List, ◌∷◌, some, length, get_elem?, All}
use shark_turbine.Common.Exc.{Result, ok}
use shark_turbine.Layers.KvCache.{Torch, prod}

-- No two indices of the list hold the same element.
pub record Distinct (ids : List ℕ) : Type 0 where
  pub distinct : (i j p : ℕ) → get_elem? ids i ≡ some p → get_elem? ids j ≡ some p → i ≡ j

module _ (T : Torch) where
  -- The same elements under the dimensions.
  pub record Resized (t u : T.Tensor) (dims : List ℕ) : Type 0 where
    pub dims_are : T.shape u ≡ dims
    pub same_elements : (k : ℕ) → T.flat u k ≡ T.flat t k

  pub record Reshaped (t : T.Tensor) (dims : List ℕ) (result : Result T.Tensor) : Type 0 where
    pub tensor : T.Tensor
    pub returned : result ≡ ok tensor
    pub resized : Resized t tensor dims

  -- The rows of a tensor that the indices name.
  pub record Selected (t : T.Tensor) (ids rest : List ℕ) (result : Result T.Tensor) : Type 0 where
    pub tensor : T.Tensor
    pub returned : result ≡ ok tensor
    pub dims_are : T.shape tensor ≡ length ids ∷ rest
    pub rows :
        (r p k : ℕ)
        → get_elem? ids r ≡ some p
        → k < prod rest
        → T.flat tensor (r * prod rest + k) ≡ T.flat t (p * prod rest + k)

  -- A tensor with its rows at the indices replaced.
  pub record Copied (t source : T.Tensor) (ids rest : List ℕ) (result : Result T.Tensor)
      : Type 0 where
    pub tensor : T.Tensor
    pub returned : result ≡ ok tensor
    pub dims_are : T.shape tensor ≡ T.shape t
    pub written :
        (r p k : ℕ)
        → get_elem? ids r ≡ some p
        → k < prod rest
        → T.flat tensor (p * prod rest + k) ≡ T.flat source (r * prod rest + k)
    pub kept :
        (p k : ℕ)
        → ((r : ℕ) → get_elem? ids r ≢ some p)
        → k < prod rest
        → T.flat tensor (p * prod rest + k) ≡ T.flat t (p * prod rest + k)

  -- One row of a tensor.
  pub record Indexed (t : T.Tensor) (i : ℕ) (rest : List ℕ) (result : Result T.Tensor)
      : Type 0 where
    pub tensor : T.Tensor
    pub returned : result ≡ ok tensor
    pub dims_are : T.shape tensor ≡ rest
    pub elements : (k : ℕ) → k < prod rest → T.flat tensor k ≡ T.flat t (i * prod rest + k)

  -- A tensor with one row replaced.
  pub record Put (t values : T.Tensor) (row : ℕ) (rest : List ℕ) (result : Result T.Tensor)
      : Type 0 where
    pub tensor : T.Tensor
    pub returned : result ≡ ok tensor
    pub dims_are : T.shape tensor ≡ T.shape t
    pub written : (k : ℕ) → k < prod rest → T.flat tensor (row * prod rest + k) ≡ T.flat values k
    pub kept :
        (q k : ℕ)
        → q ≢ row
        → k < prod rest
        → T.flat tensor (q * prod rest + k) ≡ T.flat t (q * prod rest + k)

  pub record Lawful : Type 0 where
    pub reshape_inferred_law :
        (t : T.Tensor) (n : ℕ) (dims : List ℕ)
        → 0 < prod dims
        → prod (T.shape t) ≡ n * prod dims
        → Reshaped t (n ∷ dims) (T.reshape_inferred dims t)
    pub reshape_law :
        (t : T.Tensor) (dims : List ℕ)
        → prod (T.shape t) ≡ prod dims
        → Reshaped t dims (T.reshape dims t)
    pub flatten_0_2_law :
        (t : T.Tensor) (a b c : ℕ) (rest : List ℕ)
        → T.shape t ≡ a ∷ b ∷ c ∷ rest
        → Resized t (T.flatten_0_2 t) (a * b * c ∷ rest)
    pub flatten_0_1_law :
        (t : T.Tensor) (a b : ℕ) (rest : List ℕ)
        → T.shape t ≡ a ∷ b ∷ rest
        → Resized t (T.flatten_0_1 t) (a * b ∷ rest)
    pub flatten_1_2_law :
        (t : T.Tensor) (a b c : ℕ) (rest : List ℕ)
        → T.shape t ≡ a ∷ b ∷ c ∷ rest
        → Resized t (T.flatten_1_2 t) (a ∷ b * c ∷ rest)
    pub unflatten_law :
        (t : T.Tensor) (m n : ℕ) (rest : List ℕ)
        → T.shape t ≡ m * n ∷ rest
        → Reshaped t (m ∷ n ∷ rest) (T.unflatten m n t)
    pub index_select_law :
        (t : T.Tensor) (n : ℕ) (ids rest : List ℕ)
        → T.shape t ≡ n ∷ rest
        → All (λ p. p < n) ids
        → Selected t ids rest (T.index_select t ids)
    pub index_copy_law :
        (t source : T.Tensor) (n : ℕ) (ids rest : List ℕ)
        → T.shape t ≡ n ∷ rest
        → All (λ p. p < n) ids
        → Distinct ids
        → T.shape source ≡ length ids ∷ rest
        → Copied t source ids rest (T.index_copy t ids source)
    pub copy_into_law :
        (into t : T.Tensor) → T.shape into ≡ T.shape t → Reshaped t (T.shape t) (T.copy_into into t)
    pub through_view_law :
        (base view : T.Tensor) → Resized view (T.through_view base view) (T.shape base)
    pub layout_law :
        (base view : T.Tensor) (dims : List ℕ)
        → T.reshape_is_view (T.through_view base view) dims ≡ T.reshape_is_view base dims
    pub index_law :
        (t : T.Tensor) (m i : ℕ) (rest : List ℕ)
        → T.shape t ≡ m ∷ 1 ∷ rest
        → i < m
        → Indexed t i rest (T.index t i 0)
    pub index_put_law :
        (t values : T.Tensor) (n blocks partitions stride p b i o : ℕ) (rest : List ℕ)
        → T.shape t ≡ n ∷ blocks ∷ partitions ∷ stride ∷ rest
        → T.shape values ≡ rest
        → p < n
        → b < blocks
        → i < partitions
        → o < stride
        → Put t values
            (((p * blocks + b) * partitions + i) * stride + o)
            rest
            (T.index_put t p b i o values)
