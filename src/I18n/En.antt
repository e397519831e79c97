-- ===== src/I18n/En.antt =====
-- frontend/src/i18n/en.ts: the English texts, in ten parts.
mod Part1
mod Part2
mod Part3
mod Part4
mod Part5
mod Part6
mod Part7
mod Part8
mod Part9
mod Part10
use scan_tls.Common.{Text, List, ◌++◌}
unfoldable pub use Part1.{en_1}
unfoldable pub use Part2.{en_2}
unfoldable pub use Part3.{en_3}
unfoldable pub use Part4.{en_4}
unfoldable pub use Part5.{en_5}
unfoldable pub use Part6.{en_6}
unfoldable pub use Part7.{en_7}
unfoldable pub use Part8.{en_8}
unfoldable pub use Part9.{en_9}
unfoldable pub use Part10.{en_10}

-- the dictionary
unfoldable pub en_texts : List (Text × Text)
en_texts =
    en_1 ++ (en_2 ++ (en_3 ++ (en_4 ++ (en_5 ++ (en_6 ++ (en_7 ++ (en_8 ++ (en_9 ++ (en_10)))))))))
