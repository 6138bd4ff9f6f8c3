-- ===== src/Clone/Stores.antt =====
-- What a store has after a change.
use oscomp_test_listline.Prelude.{ℕ, ◌≡◌, ◌≢◌, arith}
use oscomp_test_listline.Clone.{put}

pub put_here : {B : Type 0} (store : ℕ → B) (i : ℕ) (b : B) → put store i b i ≡ b
put_here store i b = ground arith

pub put_other : {B : Type 0} (store : ℕ → B) (i j : ℕ) (b : B) → i ≢ j → put store i b j ≡ store j
put_other store i j b h = ground (arith, h)
