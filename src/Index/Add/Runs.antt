-- ===== src/Index/Add/Runs.antt =====
-- `Add` on a short file.
use codesearch.Common.{
  ℕ, ◌≡◌, ◌^◌, ◌↔◌, ◌⊎◌, inl, inr, In, arith, some, [], ◌∷◌, length, length-replicate,
}
use codesearch.Sparse.{new_set}
use codesearch.Index.Add.{Reader, chunk, at_end, Writer, add_posts}
use codesearch.Index.Add.Keep.{IsOrdered, entries}
use codesearch.Index.Add.Posts.{IsPosting, posted, add_posts-IsOrdered}
use codesearch.Index.Sort.Order.{nil-Pairwise}

-- `"abca"` in two pieces.
abbrev pieces : Reader
pieces = chunk 97 (98 ∷ []) (chunk 99 (97 ∷ []) at_end)

room : (n : ℕ) → length (new_set n).sparse ≡ n
unfolding new_set
room n = length-replicate {A = ℕ} n 0

abbrev new_writer : Writer
new_writer = record {
  trigram = new_set (2 ^ 24);
  name_index = [];
  name_data = [];
  num_name = 0;
  post = [];
  post_files = [];
}

new_writer-IsPosting : IsPosting 0 (7 ∷ 5 ∷ []) new_writer
new_writer-IsPosting = record {
  ordered = record { room = omega arith; small = tt; turns = nil-Pairwise _; chunks = tt };
  fresh = λ p t h k. absurd h;
  small = (omega arith, (omega arith, tt));
  distinct = (λ h. elim h [ inl e ↦ omega (arith, e) | inr n ↦ n ], (λ n. n, tt));
}

add_posts-IsOrdered_example :
    (w : Writer) × (add_posts 0 (7 ∷ 5 ∷ []) new_writer ≡ some w)
    × IsOrdered w
    × (w.num_name ≡ 0)
    × ((p : ℕ) → In p (entries w) ↔ (In p (entries new_writer) ⊎ In p (posted 0 (7 ∷ 5 ∷ []))))
add_posts-IsOrdered_example =
    add_posts-IsOrdered 0 (7 ∷ 5 ∷ []) new_writer (omega arith) new_writer-IsPosting
