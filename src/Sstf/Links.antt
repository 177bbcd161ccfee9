-- ===== src/Sstf/Links.antt =====
-- The kernel's doubly linked lists, as SSTF/greedy-iosched.c uses them. The scheduler reads the two
-- fields of a `struct list_head`; the functions that change them belong to the kernel, so they are
-- a parameter, with what linux/list.h documents of them.
use os_spring.Common.{ℕ, ◌≡◌, ◌≢◌, ◌==◌, if◌then◌else◌}

-- the address of a `struct list_head`, in a queue's head or in a request
abbrev pub Node : Type 0
Node = ℕ

-- the fields of all list heads in memory
pub record Links : Type 0 where
  pub next : Node → Node
  pub prev : Node → Node

pub record KernelList : Type 0 where
  pub list_add : (entry after : Node) → Links → Links
  pub list_del_init : Node → Links → Links
  pub init_list_head : Node → Links → Links
  pub next-add :
      (entry after : Node) (l : Links) (m : Node)
      → entry ≢ after
      → (list_add entry after l).next m
        ≡ (if m == after then entry else if m == entry then l.next after else l.next m)
  pub prev-add :
      (entry after : Node) (l : Links) (m : Node)
      → entry ≢ after
      → entry ≢ l.next after
      → (list_add entry after l).prev m
        ≡ (if m == l.next after then entry else if m == entry then after else l.prev m)
  pub next-del :
      (entry : Node) (l : Links) (m : Node)
      → (list_del_init entry l).next m
        ≡ (if m == entry then entry else if m == l.prev entry then l.next entry else l.next m)
  pub prev-del :
      (entry : Node) (l : Links) (m : Node)
      → (list_del_init entry l).prev m
        ≡ (if m == entry then entry else if m == l.next entry then l.prev entry else l.prev m)
  pub next-init :
      (head : Node) (l : Links) (m : Node)
      → (init_list_head head l).next m ≡ (if m == head then head else l.next m)
  pub prev-init :
      (head : Node) (l : Links) (m : Node)
      → (init_list_head head l).prev m ≡ (if m == head then head else l.prev m)
