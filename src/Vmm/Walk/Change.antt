-- ===== src/Vmm/Walk/Change.antt =====
-- What `page_walk` of kernel/vmm.c may change.
use testcode.Base.{ℕ, ◌+◌, ◌≤◌, ◌<◌, ◌≡◌, ◌⊎◌, ap, ◌∙◌, none, some, true, List, length}
use testcode.Base.Bits.{has_bit}
use testcode.Machine.{Kernel, max_va}
use testcode.Machine.Word.{round_down}
use testcode.Vmm.Owner.{SameOwners, SamePages-trans}
use testcode.Vmm.Space.{Space, Outside}
use testcode.Vmm.Tables.{Role, Place, Keeps, none_before, IsRoot, slot, walk_to, leaf}

-- What the allocating walk may do between the states `s` and `s'`.
pub record Extends (s : Kernel) (role : Role) (s' : Kernel) (role' : Role) : Type 0 where
  pub keeps : Keeps role role'
  -- No translation of any address space changes.
  pub same_leaf : (r va : ℕ) → IsRoot role r → va < max_va → leaf s'.mem 2 r va ≡ leaf s.mem 2 r va
  -- Valid entries stay.
  pub stays :
      (p i : ℕ) (x : Place)
      → role p ≡ some x
      → i < 512
      → has_bit (s.mem (slot p i)) 0 ≡ true
      → s'.mem (slot p i) ≡ s.mem (slot p i)
  -- Memory outside the tables is not written.
  pub frame : (b : ℕ) → role' (round_down b) ≡ none → s'.mem b ≡ s.mem b
  pub owners : SameOwners s s'
  pub start : s'.free_mem_start_addr ≡ s.free_mem_start_addr
  pub end : s'.free_mem_end_addr ≡ s.free_mem_end_addr

-- The walk through `l` levels from the table `pt` ends at the entry `a` in the state `s'`, or it
-- returns 0 since fewer than `l` pages were free.
pub record Walked (s : Kernel) (role : Role) (xs : List ℕ) (l pt va a : ℕ) (s' : Kernel)
    : Type 0 where
  pub role' : Role
  pub rest : List ℕ
  pub space : Space s' role' rest
  pub extends : Extends s role s' role'
  pub used : length xs ≤ length rest + l
  pub outside : (p : ℕ) → Outside role xs p → Outside role' rest p
  pub found : (walk_to s'.mem l pt va ≡ some a) ⊎ ((a ≡ 0) × (length xs < l))

-- A state with the same memory and limits.
pub Extends-same :
    (s s' : Kernel) (role : Role)
    → s'.mem ≡ s.mem
    → s'.free_mem_start_addr ≡ s.free_mem_start_addr
    → s'.free_mem_end_addr ≡ s.free_mem_end_addr
    → SameOwners s s'
    → Extends s role s' role
Extends-same s s' role same start end owners = record {
  owners = owners;
  keeps = λ p x at. at;
  same_leaf = λ r va at h. ap (λ m. leaf m 2 r va) same;
  stays = λ p i x at h v. ap (λ m. m (slot p i)) same;
  frame = λ b h. ap (λ m. m b) same;
  start = start;
  end = end;
}

module _ (s : Kernel) (role : Role) {s' : Kernel} {role' : Role} {s'' : Kernel}
    {role'' : Role} where
  pub Extends-trans :
      Extends s role s' role' → Extends s' role' s'' role'' → Extends s role s'' role''
  Extends-trans a b = record {
    keeps = λ p x at. b.keeps p x (a.keeps p x at);
    same_leaf = λ r va at h. b.same_leaf r va (a.keeps r _ at) h ∙ a.same_leaf r va at h;
    stays = λ p i x at h v.
        let first = a.stays p i x at h v in b.stays p i x (a.keeps p x at) h (rw first v) ∙ first;
    frame = λ c h. b.frame c h ∙ a.frame c (none_before role' role'' b.keeps (round_down c) h);
    owners = λ i. SamePages-trans (a.owners i) (b.owners i);
    start = b.start ∙ a.start;
    end = b.end ∙ a.end;
  }
