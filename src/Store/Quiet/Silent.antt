-- ===== src/Store/Quiet/Silent.antt =====
-- What reading keeps, for whatever its smallest steps keep.
use diskqueue.Base.{ℕ, none, some, not}
use diskqueue.Store.State.{Store, Block, Env, Error}
use diskqueue.Store.Action.{ok, err, ◌>>◌, fail, modify}
use diskqueue.Store.Os.{os_read_at}
use diskqueue.Store.Segments.{drop_block}
use diskqueue.Store.Block.{
  read_block, fill_block, frame_header_at, fetch_frame, record_at, record_len, frame_end,
}
use diskqueue.Store.Quiet.{
  Keeps, pure-Keeps, fail-Keeps, gets-Keeps, attempt-Keeps, if-Keeps, bind-Keeps, when-Keeps,
}

-- The steps that reading is made of leave what `p` shows alone.
pub record Silent {X : Type 0} (p : Store → X) : Type 0 where
  pub os_read_at_kept : (env : Env) (num off n : ℕ) → Keeps p (os_read_at env num off n)
  pub drop_block_kept : Keeps p drop_block
  pub set_block_kept : (f : Store → Block) → Keeps p (modify (λ s. record s { block = f s }))

module _ {X : Type 0} {p : Store → X} (q : Silent p) (env : Env) where
  read_block-Keeps : (num off n : ℕ) → Keeps p (read_block env num off n)
  unfolding read_block
  read_block-Keeps num off n = bind-Keeps _ _ (gets-Keeps _) (λ same.
      bind-Keeps _ _ (gets-Keeps _) (λ held. if-Keeps _ _ _ (pure-Keeps tt) (
        bind-Keeps _ _ (when-Keeps _ _ q.drop_block_kept)
          (λ _. bind-Keeps _ _ (q.os_read_at_kept env num _ _) (λ tail. q.set_block_kept _)))))

  pub fill_block-Keeps : (num off avail need : ℕ) → Keeps p (fill_block env num off avail need)
  unfolding fill_block
  fill_block-Keeps num off avail need =
      bind-Keeps _ _ (attempt-Keeps _ (read_block-Keeps num off _)) (elim [
        | ok _ ↦ pure-Keeps tt
        | err e ↦ if-Keeps _ _ _ (dropped e) (
            if-Keeps _ _ _
              (bind-Keeps _ _ (attempt-Keeps _ (read_block-Keeps num off _))
                (elim [ ok _ ↦ pure-Keeps tt | err e' ↦ dropped _ ]))
              (dropped _))
      ])
    where
      dropped : (e : Error) → Keeps {A = Unit {0}} p (do drop_block; fail e)
      dropped e = bind-Keeps _ _ q.drop_block_kept (λ _. fail-Keeps e)

  pub frame_header_at-Keeps : (num off avail : ℕ) → Keeps p (frame_header_at env num off avail)
  unfolding frame_header_at
  frame_header_at-Keeps num off avail = bind-Keeps _ _ (gets-Keeps _) (λ has.
      bind-Keeps _ _ (when-Keeps (not has) _ (fill_block-Keeps num off avail _))
        (λ _. bind-Keeps _ _ (gets-Keeps _) (λ bytes. pure-Keeps _)))

  pub fetch_frame-Keeps :
      (num off avail n total : ℕ) → Keeps p (fetch_frame env num off avail n total)
  unfolding fetch_frame
  fetch_frame-Keeps num off avail n total = bind-Keeps _ _ (gets-Keeps _) (λ has.
      bind-Keeps _ _
        (when-Keeps (not has) _ (
          bind-Keeps _ _ (fill_block-Keeps num off avail total)
            (λ _. bind-Keeps _ _ (gets-Keeps _) (λ has'. when-Keeps (not has') _ (fail-Keeps _)))))
        (λ _. bind-Keeps _ _ (gets-Keeps _) (λ bytes. pure-Keeps _)))

  pub record_at-Keeps : (num off : ℕ) → Keeps p (record_at env num off)
  unfolding record_at
  record_at-Keeps num off = bind-Keeps _ _ (gets-Keeps _) (λ df. if-Keeps _ _ _ (pure-Keeps none) (
      bind-Keeps _ _ (frame_header_at-Keeps num _ _) (elim [
        | none ↦ pure-Keeps none
        | some nt ↦ bind-Keeps _ _ (fetch_frame-Keeps num _ _ _ _) (λ frame. pure-Keeps _)
      ])))

  pub record_len-Keeps : (num off : ℕ) → Keeps p (record_len env num off)
  unfolding record_len
  record_len-Keeps num off = bind-Keeps _ _ (gets-Keeps _) (λ df.
      if-Keeps _ _ _ (pure-Keeps none)
        (bind-Keeps _ _ (frame_header_at-Keeps num _ _) (λ header. pure-Keeps _)))

  pub frame_end-Keeps : (num off : ℕ) → Keeps p (frame_end env num off)
  unfolding frame_end
  frame_end-Keeps num off =
      bind-Keeps _ _ (gets-Keeps _) (λ s. if-Keeps _ _ _ (pure-Keeps _) (record_len-Keeps num off))
