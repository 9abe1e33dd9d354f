-- ===== src/Tests.antt =====
-- The definitions on concrete inputs, and each theorem at an input where its hypotheses hold.
mod Timer
mod Memory
mod Structures
mod Threads
mod Archives
mod Strings
mod Sizes
mod Elves
mod Linux
mod Areas
mod Chunks
mod Loading
mod Paging
mod Boots
