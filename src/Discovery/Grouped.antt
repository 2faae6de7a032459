-- ===== src/Discovery/Grouped.antt =====
-- crates/discovery/src/lib.rs: how often the groups of `group_by_class` hold a case.
use phpunit_rust.Prelude.{
  ℕ, suc, ◌+◌, String, Bool, ◌&&◌, ◌≡◌, List, [], ◌∷◌, ◌++◌, ◌==◌, if◌then◌else◌, arith, eq_iff,
}
use phpunit_rust.Discovery.{
  TestCase, GroupedMethod, TestClass, method_of, add_case, add_cases, group_by_class,
}

-- How many methods of the list have the name.
abbrev pub count_methods : String → List GroupedMethod → ℕ
count_methods m [] = 0
count_methods m (x ∷ xs) = if x.name == m then suc (count_methods m xs) else count_methods m xs

abbrev pub count_class : String → String → TestClass → ℕ
count_class c m g = if g.class == c then count_methods m g.methods else 0

abbrev pub count_classes : String → String → List TestClass → ℕ
count_classes c m [] = 0
count_classes c m (g ∷ gs) = count_class c m g + count_classes c m gs

abbrev pub is_case : String → String → TestCase → Bool
is_case c m case = case.class == c && case.method == m

abbrev pub count_cases : String → String → List TestCase → ℕ
count_cases c m [] = 0
count_cases c m (x ∷ xs) = if is_case c m x then suc (count_cases c m xs) else count_cases c m xs

pub count_methods-append :
    (m : String) (xs ys : List GroupedMethod)
    → count_methods m (xs ++ ys) ≡ count_methods m xs + count_methods m ys
count_methods-append m [] ys = ground arith
count_methods-append m (x ∷ xs) ys = ground (arith, count_methods-append m xs ys)

count_classes-add_case :
    (c m : String) (case : TestCase) (gs : List TestClass)
    → count_classes c m (add_case case gs) ≡ count_cases c m (case ∷ []) + count_classes c m gs
unfolding add_case method_of
count_classes-add_case c m case [] = ground arith
count_classes-add_case c m case (g ∷ gs) = ground (
  arith,
  count_classes-add_case c m case gs,
  count_methods-append m g.methods (method_of case ∷ []),
  eq_iff g.class case.class,
)

count_classes-add_cases :
    (c m : String) (cases : List TestCase) (gs : List TestClass)
    → count_classes c m (add_cases cases gs) ≡ count_cases c m cases + count_classes c m gs
unfolding add_cases
count_classes-add_cases c m [] gs = ground arith
count_classes-add_cases c m (case ∷ cases) gs = ground (
  arith,
  count_classes-add_cases c m cases (add_case case gs),
  count_classes-add_case c m case gs,
)

-- Grouping keeps each test as often as it was discovered.
pub count_classes-group_by_class :
    (c m : String) (cases : List TestCase)
    → count_classes c m (group_by_class cases) ≡ count_cases c m cases
unfolding group_by_class
count_classes-group_by_class c m cases = ground (arith, count_classes-add_cases c m cases [])
