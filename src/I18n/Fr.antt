-- ===== src/I18n/Fr.antt =====
-- frontend/src/i18n/fr.ts: the French texts, in ten parts.
mod Part1
mod Part2
mod Part3
mod Part4
mod Part5
mod Part6
mod Part7
mod Part8
mod Part9
mod Part10
use scan_tls.Common.{Text, List, ◌++◌}
unfoldable pub use Part1.{fr_1}
unfoldable pub use Part2.{fr_2}
unfoldable pub use Part3.{fr_3}
unfoldable pub use Part4.{fr_4}
unfoldable pub use Part5.{fr_5}
unfoldable pub use Part6.{fr_6}
unfoldable pub use Part7.{fr_7}
unfoldable pub use Part8.{fr_8}
unfoldable pub use Part9.{fr_9}
unfoldable pub use Part10.{fr_10}

-- the dictionary
unfoldable pub fr_texts : List (Text × Text)
fr_texts =
    fr_1 ++ (fr_2 ++ (fr_3 ++ (fr_4 ++ (fr_5 ++ (fr_6 ++ (fr_7 ++ (fr_8 ++ (fr_9 ++ (fr_10)))))))))
