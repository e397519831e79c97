-- ===== src/I18n/De.antt =====
-- frontend/src/i18n/de.ts: the German texts, in ten parts.
mod Part1
mod Part2
mod Part3
mod Part4
mod Part5
mod Part6
mod Part7
mod Part8
mod Part9
mod Part10
use scan_tls.Common.{Text, List, ◌++◌}
unfoldable pub use Part1.{de_1}
unfoldable pub use Part2.{de_2}
unfoldable pub use Part3.{de_3}
unfoldable pub use Part4.{de_4}
unfoldable pub use Part5.{de_5}
unfoldable pub use Part6.{de_6}
unfoldable pub use Part7.{de_7}
unfoldable pub use Part8.{de_8}
unfoldable pub use Part9.{de_9}
unfoldable pub use Part10.{de_10}

-- the dictionary
unfoldable pub de_texts : List (Text × Text)
de_texts =
    de_1 ++ (de_2 ++ (de_3 ++ (de_4 ++ (de_5 ++ (de_6 ++ (de_7 ++ (de_8 ++ (de_9 ++ (de_10)))))))))
