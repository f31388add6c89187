-- ===== src/LinkedList.antt =====
-- lab8/code/libs/list.h: circular doubly linked lists, on an explicit store of links. A node is a
-- number; a list is its head node, which stands for no element.
pub mod Ring
pub mod Operations
mod Tests
use os_labs.Prelude.{ℕ, Bool, ◌==◌, update}

-- `struct list_entry`: the two links of each node.
pub record Links : Type 0 where
  pub next : ℕ → ℕ
  pub prev : ℕ → ℕ

-- `__list_add`
pub insert_between : Links → ℕ → ℕ → ℕ → Links
insert_between l elm prev next = record {
  next = update (update l.next prev elm) elm next;
  prev = update (update l.prev next elm) elm prev;
}

-- `__list_del`
pub join : Links → ℕ → ℕ → Links
join l prev next = record { next = update l.next prev next; prev = update l.prev next prev }

unfoldable pub list_init : Links → ℕ → Links
list_init l elm = record { next = update l.next elm elm; prev = update l.prev elm elm }

unfoldable pub list_add_after : Links → ℕ → ℕ → Links
unfolding insert_between
list_add_after l listelm elm = insert_between l elm listelm (l.next listelm)

unfoldable pub list_add : Links → ℕ → ℕ → Links
unfolding list_add_after
list_add l listelm elm = list_add_after l listelm elm

unfoldable pub list_add_before : Links → ℕ → ℕ → Links
unfolding insert_between
list_add_before l listelm elm = insert_between l elm (l.prev listelm) listelm

unfoldable pub list_del : Links → ℕ → Links
unfolding join
list_del l listelm = join l (l.prev listelm) (l.next listelm)

pub list_del_init : Links → ℕ → Links
unfolding list_del list_init
list_del_init l listelm = list_init (list_del l listelm) listelm

unfoldable pub list_empty : Links → ℕ → Bool
list_empty l list = l.next list == list
